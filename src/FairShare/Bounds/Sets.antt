-- ===== src/FairShare/Bounds/Sets.antt =====
-- Sets of owners as lists in which each stands once.
use spoond.Base.{
  ℕ, suc, ◌≤◌, ◌≡◌, refl, ◌∙◌, true, false, List, [], ◌∷◌, length, if◌then◌else◌, arith, Bool-cases,
  inl, inr,
}
use spoond.Base.Text.{Text, text_eq, text_eq→eq, text_eq_comm}
use spoond.FairShare.{member, add_owner, known_owners}

abbrev pub Distinct : List Text → Type 0
Distinct [] = Unit
Distinct (x ∷ xs) = (member x xs ≡ false) × Distinct xs

-- How many of a list are in the set.
unfoldable pub count_in : List Text → List Text → ℕ
count_in set [] = 0
count_in set (o ∷ os) = if member o set then suc (count_in set os) else count_in set os

remove : Text → List Text → List Text
remove o [] = []
remove o (x ∷ xs) = if text_eq x o then xs else x ∷ remove o xs

length-remove :
    (o : Text) (xs : List Text) → member o xs ≡ true → suc (length (remove o xs)) ≡ length xs
unfolding remove member
length-remove o [] h = cc
length-remove o (x ∷ xs) h = ground (arith, length-remove o xs)

member-remove :
    (o x : Text) (xs : List Text) → text_eq x o ≡ false → member x (remove o xs) ≡ member x xs
unfolding remove member
member-remove o x [] h = refl
member-remove o x (y ∷ ys) h = elim (Bool-cases (text_eq y o)) [
  | inr e ↦ rw (e, member-remove o x ys h) refl
  | inl e ↦
      let same = text_eq→eq y o e in
      let n : text_eq y x ≡ false = rw same (text_eq_comm o x ∙ h) in rw (e, n) refl
]

count_in-remove :
    (o : Text) (set os : List Text)
    → member o os ≡ false
    → count_in (remove o set) os ≡ count_in set os
unfolding count_in member
count_in-remove o set [] h = refl
count_in-remove o set (x ∷ os) h =
    let n : text_eq x o ≡ false = ground arith in
    let r : member o os ≡ false = ground arith in
    rw (member-remove o x set n, count_in-remove o set os r) refl

-- No more owners of a list without repetition are in a set than it has members.
pub count_in-le-length : (set os : List Text) → Distinct os → count_in set os ≤ length set
unfolding count_in
count_in-le-length set [] d = omega arith
count_in-le-length set (o ∷ os) (n, d) = elim (Bool-cases (member o set)) [
  | inr e ↦ rw e (count_in-le-length set os d)
  | inl e ↦ rw e (
      omega (
        arith,
        length-remove o set e,
        count_in-remove o set os n,
        count_in-le-length (remove o set) os d,
      ))
]

add_owner-Distinct : (o : Text) (set : List Text) → Distinct set → Distinct (add_owner o set)
add_owner-Distinct o set d = elim (Bool-cases (member o set)) [
  | inl e ↦ rw e d
  | inr e ↦ rw e (e, d)
]

pub known_owners-Distinct : (os set : List Text) → Distinct set → Distinct (known_owners os set)
unfolding known_owners
known_owners-Distinct [] set d = d
known_owners-Distinct (o ∷ os) set d = elim (Bool-cases (text_eq o [])) [
  | inl e ↦ rw e (known_owners-Distinct os set d)
  | inr e ↦ rw e (known_owners-Distinct os _ (add_owner-Distinct o set d))
]
