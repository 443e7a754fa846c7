-- ===== src/Manager/Interleaved/Entries.antt =====
-- Lists of entries: what stays when places change, and when an entry is added or taken out.
use nomad_tasks.Prelude.{
  ℕ, zero, suc, ◌≡◌, ◌≢◌, refl, sym, ap, ◌∙◌, Bool, true, Option, none, some, List, [], ◌∷◌, ◌++◌,
  get_elem?, arith, Bool-cases, inl, inr,
}
use nomad_tasks.Counter.{Ready}
use nomad_tasks.Manager.Jobs.{take_ready, behind}
use nomad_tasks.Manager.Interleaved.{without}
use nomad_tasks.Manager.Interleaved.Places.{flag_of, Spot, Ghost, NoEntry, Entries}

-- A fiber has the same flag and its entry the same spot.
abbrev pub SameEntry : Ghost → Ghost → ℕ → Type 0
SameEntry v v' g = (flag_of (v'.place g) ≡ flag_of (v.place g)) × (v'.spot g ≡ v.spot g)

-- Entries stay where one fiber alone changes that has no entry in the list.
pub Entries-except :
    (v v' : Ghost) (p : Spot) (f : ℕ) (l : List Ready)
    → ((g : ℕ) → f ≢ g → SameEntry v v' g)
    → NoEntry f l
    → Entries v p l
    → Entries v' p l
Entries-except v v' p f [] keep n h = tt
Entries-except v v' p f ((g, k) ∷ r) keep (ne, n) (a, b, c, d) =
    let (e, e') = keep g ne in (e ∙ a, e' ∙ b, c, Entries-except v v' p f r keep n d)

-- The same, where no fiber changes.
pub Entries-same :
    (v v' : Ghost) (p : Spot) (l : List Ready)
    → ((g : ℕ) → SameEntry v v' g)
    → Entries v p l
    → Entries v' p l
Entries-same v v' p [] keep h = tt
Entries-same v v' p ((g, k) ∷ r) keep (a, b, c, d) =
    let (e, e') = keep g in (e ∙ a, e' ∙ b, c, Entries-same v v' p r keep d)

-- A fiber whose entry is elsewhere, or that has none, has none in the list.
pub Entries-elsewhere :
    (v : Ghost) (p : Spot) (f : ℕ) (l : List Ready) → v.spot f ≢ p → Entries v p l → NoEntry f l
Entries-elsewhere v p f [] ne h = tt
Entries-elsewhere v p f ((g, k) ∷ r) ne (a, b, c, d) =
    (λ e. ne (ap v.spot e ∙ b), Entries-elsewhere v p f r ne d)

pub Entries-unflagged :
    (v : Ghost) (p : Spot) (f : ℕ) (l : List Ready)
    → flag_of (v.place f) ≡ none
    → Entries v p l
    → NoEntry f l
Entries-unflagged v p f [] no_flag h = tt
Entries-unflagged v p f ((g, k) ∷ r) no_flag (a, b, c, d) = (
  λ e. let x = sym no_flag ∙ ap (λ y. flag_of (v.place y)) e ∙ a in cc,
  Entries-unflagged v p f r no_flag d,
)

NoEntry-snoc : (f g k : ℕ) (l : List Ready) → NoEntry f l → f ≢ g → NoEntry f (l ++ ((g, k) ∷ []))
NoEntry-snoc f g k [] n ne = (ne, tt)
NoEntry-snoc f g k ((h, j) ∷ r) (a, n) ne = (a, NoEntry-snoc f g k r n ne)

pub Entries-snoc :
    (v : Ghost) (p : Spot) (f k : ℕ) (l : List Ready)
    → Entries v p l
    → NoEntry f l
    → flag_of (v.place f) ≡ some k
    → v.spot f ≡ p
    → Entries v p (l ++ ((f, k) ∷ []))
Entries-snoc v p f k [] h n a b = (a, b, tt, tt)
Entries-snoc v p f k ((g, j) ∷ r) (x, y, z, rest) (ne, n) a b =
    (x, y, NoEntry-snoc g f k r z (λ e. ne (sym e)), Entries-snoc v p f k r rest n a b)

NoEntry-without : (f i : ℕ) (l : List Ready) → NoEntry f l → NoEntry f (without i l)
NoEntry-without f i [] n = tt
NoEntry-without f zero (x ∷ r) n = n.1
NoEntry-without f (suc i) (x ∷ r) n = (n.0, NoEntry-without f i r n.1)

NoEntry-get_elem? :
    (g i f k : ℕ) (l : List Ready) → NoEntry g l → get_elem? l i ≡ some (f, k) → g ≢ f
NoEntry-get_elem? g i f k [] n e = absurd (ground arith)
NoEntry-get_elem? g zero f k ((h, j) ∷ r) n e = let same : h ≡ f = ground arith in rw (← same) n.0
NoEntry-get_elem? g (suc i) f k (x ∷ r) n e = NoEntry-get_elem? g i f k r n.1 e

-- Taking out the entry at an index.
pub Entries-without :
    (v : Ghost) (p : Spot) (i f k : ℕ) (l : List Ready)
    → Entries v p l
    → get_elem? l i ≡ some (f, k)
    → (flag_of (v.place f) ≡ some k)
      × (v.spot f ≡ p)
      × NoEntry f (without i l)
      × Entries v p (without i l)
Entries-without v p i f k [] h e = absurd (ground arith)
Entries-without v p zero f k ((g, j) ∷ r) (a, b, c, d) e =
    let same : g ≡ f = ground arith in
    let same' : j ≡ k = ground arith in (rw (← same, ← same') a, rw (← same) b, rw (← same) c, d)
Entries-without v p (suc i) f k ((g, j) ∷ r) (a, b, c, d) e =
    let (x, y, z, rest) = Entries-without v p i f k r d e in
    let apart = NoEntry-get_elem? g i f k r c e in
    (x, y, ((λ s. apart (sym s)), z), (a, b, NoEntry-without g i r c, rest))

-- What taking out the first entry whose flag is set leaves.
abbrev pub Taken : Ghost → Spot → (ℕ → Bool) → List Ready → ℕ → List Ready → Type 0
Taken v p stored l f rest =
    ((g : ℕ) → NoEntry g l → (g ≢ f) × NoEntry g rest)
    × (k : ℕ) × (flag_of (v.place f) ≡ some k)
    × (v.spot f ≡ p)
    × (stored k ≡ true)
    × NoEntry f rest
    × Entries v p rest

pub Entries-take_ready :
    (v : Ghost) (p : Spot) (stored : ℕ → Bool) (l : List Ready) (f : ℕ) (rest : List Ready)
    → Entries v p l
    → take_ready stored l ≡ some (f, rest)
    → Taken v p stored l f rest
unfolding take_ready
Entries-take_ready v p stored [] f rest h e = absurd (ground arith)
Entries-take_ready v p stored ((g, j) ∷ r) f rest (a, b, c, d) e = elim (Bool-cases (stored j)) [
  | inl set ↦
      let x = rw set at e in
      let same : g ≡ f = ground arith in
      let same' : r ≡ rest = ground arith in rw (← same, ← same') ((λ g' n. n), j, a, b, set, c, d)
  | inr not_set ↦
      further (take_ready stored r) refl (rw not_set at e)
        (λ f' r' e'. Entries-take_ready v p stored r f' r' d e')
]
  where
    further :
        (o : Option (ℕ × List Ready))
        → take_ready stored r ≡ o
        → behind (g, j) o ≡ some (f, rest)
        → ((f' : ℕ) (r' : List Ready)
            → take_ready stored r ≡ some (f', r')
            → Taken v p stored r f' r')
        → Taken v p stored ((g, j) ∷ r) f rest
    further none e x again = absurd (ground arith)
    further (some (f', r')) e x again =
        let same : f' ≡ f = ground arith in
        let same' : (g, j) ∷ r' ≡ rest = ground arith in
        let (out, k, a', b', s, n, h) = again f' r' e in
        let (ne, n') = out g c in
        rw (← same, ← same')
          (
            (λ h' m. let (y, z) = out h' m.1 in (y, (m.0, z))),
            k,
            a',
            b',
            s,
            ((λ q. ne (sym q)), n),
            (a, b, n', h),
          )
