-- ===== src/Callable/Equal.antt =====
-- The test of types that template specialisation makes decides their equality.
use nomad_tasks.Prelude.{◌≡◌, ap, refl, true, false, arith, ==-refl}
use nomad_tasks.Callable.{
  CppType, CppTypes, class_type, pointer, function, member, nil, cons, same_type, same_types,
}

mutual
  unfolding same_type same_types

  pub same_type-eq : (a b : CppType) → same_type a b ≡ true → a ≡ b
  same_type-eq (class_type a) (class_type b) h = ground arith
  same_type-eq (pointer a) (pointer b) h = ap pointer (same_type-eq a b h)
  same_type-eq (function r a) (function s b) h = ground (arith, same_type-eq r s, same_types-eq a b)
  same_type-eq (member true t r a) (member true u s b) h =
      ground (arith, same_type-eq r s, same_types-eq a b)
  same_type-eq (member false t r a) (member false u s b) h =
      ground (arith, same_type-eq r s, same_types-eq a b)
  same_type-eq a b h = absurd (ground arith)

  pub same_types-eq : (a b : CppTypes) → same_types a b ≡ true → a ≡ b
  same_types-eq nil nil h = refl
  same_types-eq (cons a x) (cons b y) h = ground (arith, same_type-eq a b, same_types-eq x y)
  same_types-eq a b h = absurd (ground arith)

mutual
  unfolding same_type same_types

  pub same_type_self : (a : CppType) → same_type a a ≡ true
  same_type_self (class_type a) = ==-refl a
  same_type_self (pointer a) = same_type_self a
  same_type_self (function r a) = rw (same_type_self r, same_types_self a) refl
  same_type_self (member true t r a) = rw (==-refl t, same_type_self r, same_types_self a) refl
  same_type_self (member false t r a) = rw (==-refl t, same_type_self r, same_types_self a) refl

  pub same_types_self : (a : CppTypes) → same_types a a ≡ true
  same_types_self nil = refl
  same_types_self (cons a x) = rw (same_type_self a, same_types_self x) refl
