-- ===== src/Variables/Sorting.antt =====
-- The order of the keys in the listings and summaries of SquirrelVmHelpers.cpp: `sort_keys` against what
-- the C++ standard says of `std::sort`, which does not fix the order of equal elements.
use squirrel_debug_server.Base.{
  ◌≡◌, ◌∙◌, refl, sym, ap, subst, true, false, List, [], ◌∷◌, Text, arith, Bool-cases, inl, inr,
  if◌then◌else◌,
}
use mathlib.Core.List.Permᴰ
use mathlib.Core.List.{Memᴰ, Permᴰ}
use squirrel_debug_server.Variables.Show.{KeyToTableIter, text_lt, insert_sorted, sort_keys}

text_lt_asym : (s t : Text) → text_lt s t ≡ true → text_lt t s ≡ false
unfolding text_lt
text_lt_asym s [] h = ground arith
text_lt_asym [] (d ∷ t) h = refl
text_lt_asym (c ∷ s) (d ∷ t) h = ground (arith, h, text_lt_asym s t)

text_lt_total : (s t : Text) → text_lt s t ≡ false → text_lt t s ≡ false → s ≡ t
unfolding text_lt
text_lt_total [] [] h k = refl
text_lt_total [] (d ∷ t) h k = ground arith
text_lt_total (c ∷ s) [] h k = ground arith
text_lt_total (c ∷ s) (d ∷ t) h k = ground (arith, h, k, text_lt_total s t)

text_lt_trans : (s t u : Text) → text_lt s t ≡ true → text_lt t u ≡ true → text_lt s u ≡ true
unfolding text_lt
text_lt_trans s [] u h k = ground arith
text_lt_trans s (d ∷ t) [] h k = ground arith
text_lt_trans [] (d ∷ t) (e ∷ u) h k = refl
text_lt_trans (c ∷ s) (d ∷ t) (e ∷ u) h k = ground (arith, h, k, text_lt_trans s t u)

insert_sorted-first :
    (e x : KeyToTableIter) (xs : List KeyToTableIter)
    → text_lt e.0 x.0 ≡ true
    → insert_sorted e (x ∷ xs) ≡ e ∷ x ∷ xs
unfolding insert_sorted
insert_sorted-first e x xs h = rw (h) refl

insert_sorted-later :
    (e x : KeyToTableIter) (xs : List KeyToTableIter)
    → text_lt e.0 x.0 ≡ false
    → insert_sorted e (x ∷ xs) ≡ x ∷ insert_sorted e xs
unfolding insert_sorted
insert_sorted-later e x xs h = rw (h) refl

-- Two entries of which one's text is less.
insert_less_comm :
    (a b : KeyToTableIter) (xs : List KeyToTableIter)
    → text_lt a.0 b.0 ≡ true
    → insert_sorted a (insert_sorted b xs) ≡ insert_sorted b (insert_sorted a xs)
unfolding insert_sorted
insert_less_comm a b [] h = rw (h, text_lt_asym a.0 b.0 h) refl
insert_less_comm a b (x ∷ xs) h = elim (Bool-cases (text_lt b.0 x.0)) [
  | inl bx ↦ rw (bx, text_lt_trans a.0 b.0 x.0 h bx, h, text_lt_asym a.0 b.0 h, bx) refl
  | inr bx ↦ elim (Bool-cases (text_lt a.0 x.0)) [
    | inl ax ↦ rw (bx, ax, text_lt_asym a.0 b.0 h, bx) refl
    | inr ax ↦ rw (bx, ax, bx) (ap (λ ys. x ∷ ys) (insert_less_comm a b xs h))
  ]
]

-- Entries with the same text are one entry.
unfoldable pub NamesEntries : List KeyToTableIter → Type 0
NamesEntries es = (a b : KeyToTableIter) → Memᴰ a es → Memᴰ b es → a.0 ≡ b.0 → a ≡ b

NamesEntries-tail :
    (e : KeyToTableIter) (es : List KeyToTableIter) → NamesEntries (e ∷ es) → NamesEntries es
unfolding NamesEntries
NamesEntries-tail e es names a b a_in b_in = names a b (Memᴰ.tail a_in) (Memᴰ.tail b_in)

insert_sorted_comm :
    (a b : KeyToTableIter) (xs : List KeyToTableIter)
    → (a.0 ≡ b.0 → a ≡ b)
    → insert_sorted a (insert_sorted b xs) ≡ insert_sorted b (insert_sorted a xs)
insert_sorted_comm a b xs same = elim (Bool-cases (text_lt a.0 b.0)) [
  | inl less ↦ insert_less_comm a b xs less
  | inr ab ↦ elim (Bool-cases (text_lt b.0 a.0)) [
    | inl less ↦ sym (insert_less_comm b a xs less)
    | inr ba ↦ rw (same (text_lt_total a.0 b.0 ab ba)) refl
  ]
]

Memᴰ-Perm : {a : KeyToTableIter} {xs ys : List KeyToTableIter} → Permᴰ xs ys → Memᴰ a xs → Memᴰ a ys
Memᴰ-Perm Permᴰ.nil m = m
Memᴰ-Perm (Permᴰ.cons e d) (Memᴰ.head h) = Memᴰ.head (h ∙ e)
Memᴰ-Perm (Permᴰ.cons e d) (Memᴰ.tail m) = Memᴰ.tail (Memᴰ-Perm d m)
Memᴰ-Perm (Permᴰ.swap e₁ e₂) (Memᴰ.head h) = Memᴰ.tail (Memᴰ.head (h ∙ e₁))
Memᴰ-Perm (Permᴰ.swap e₁ e₂) (Memᴰ.tail (Memᴰ.head h)) = Memᴰ.head (h ∙ e₂)
Memᴰ-Perm (Permᴰ.swap e₁ e₂) (Memᴰ.tail (Memᴰ.tail m)) = Memᴰ.tail (Memᴰ.tail m)
Memᴰ-Perm (Permᴰ.trans d₁ d₂) m = Memᴰ-Perm d₂ (Memᴰ-Perm d₁ m)

NamesEntries-Perm : {xs ys : List KeyToTableIter} → Permᴰ xs ys → NamesEntries xs → NamesEntries ys
unfolding NamesEntries
NamesEntries-Perm perm names a b a_in b_in =
    names a b (Memᴰ-Perm (Permᴰ.symm perm) a_in) (Memᴰ-Perm (Permᴰ.symm perm) b_in)

sort_keys-Perm :
    {xs ys : List KeyToTableIter} → Permᴰ xs ys → NamesEntries xs → sort_keys xs ≡ sort_keys ys
unfolding sort_keys NamesEntries
sort_keys-Perm Permᴰ.nil names = refl
sort_keys-Perm (Permᴰ.cons e d) names = rw (e, sort_keys-Perm d (NamesEntries-tail _ _ names)) refl
sort_keys-Perm (Permᴰ.swap {a = a} {b = b} {l = l} e₁ e₂) names =
    insert_sorted_comm a b (sort_keys l) (names a b (Memᴰ.head refl) (Memᴰ.tail (Memᴰ.head refl)))
    ∙ rw (e₁, e₂) refl
sort_keys-Perm (Permᴰ.trans d₁ d₂) names =
    sort_keys-Perm d₁ names ∙ sort_keys-Perm d₂ (NamesEntries-Perm d₁ names)

-- What `std::sort` promises of the order: no entry's text is less than that of the one before it.
unfoldable pub IsSorted : List KeyToTableIter → Type 0
IsSorted [] = Unit
IsSorted (x ∷ []) = Unit
IsSorted (x ∷ y ∷ ys) = (text_lt y.0 x.0 ≡ false) × IsSorted (y ∷ ys)

insert_sorted-IsSorted :
    (e : KeyToTableIter) (es : List KeyToTableIter) → IsSorted es → IsSorted (insert_sorted e es)
unfolding insert_sorted IsSorted
insert_sorted-IsSorted e [] sorted = tt
insert_sorted-IsSorted e (x ∷ []) sorted = elim (Bool-cases (text_lt e.0 x.0)) [
  | inl less ↦ rw (less) (text_lt_asym e.0 x.0 less, tt)
  | inr ex ↦ rw (ex) (ex, tt)
]
insert_sorted-IsSorted e (x ∷ y ∷ ys) sorted = elim (Bool-cases (text_lt e.0 x.0)) [
  | inl less ↦
      subst IsSorted (sym (insert_sorted-first e x (y ∷ ys) less))
        (text_lt_asym e.0 x.0 less, sorted)
  | inr ex ↦
      let rest = insert_sorted-IsSorted e (y ∷ ys) sorted.1 in
      elim (Bool-cases (text_lt e.0 y.0)) [
        | inl less ↦ rw (ex, less) (ex, (text_lt_asym e.0 y.0 less, sorted.1))
        | inr ey ↦ rw (ex, ey) (sorted.0, subst IsSorted (insert_sorted-later e y ys ey) rest)
      ]
]

sort_keys-IsSorted : (es : List KeyToTableIter) → IsSorted (sort_keys es)
unfolding sort_keys IsSorted
sort_keys-IsSorted [] = tt
sort_keys-IsSorted (e ∷ es) = insert_sorted-IsSorted e (sort_keys es) (sort_keys-IsSorted es)

insert_sorted-Perm :
    (e : KeyToTableIter) (es : List KeyToTableIter) → Permᴰ (e ∷ es) (insert_sorted e es)
unfolding insert_sorted
insert_sorted-Perm e [] = Permᴰ.refl (e ∷ [])
insert_sorted-Perm e (x ∷ xs) =
    elim (text_lt e.0 x.0)
      as (λ b. Permᴰ (e ∷ x ∷ xs) (if b then e ∷ x ∷ xs else x ∷ insert_sorted e xs)) [
        | true ↦ Permᴰ.refl (e ∷ x ∷ xs)
        | false ↦ Permᴰ.trans (Permᴰ.swap refl refl) (Permᴰ.cons refl (insert_sorted-Perm e xs))
      ]

sort_keys_Perm : (es : List KeyToTableIter) → Permᴰ es (sort_keys es)
unfolding sort_keys
sort_keys_Perm [] = Permᴰ.nil
sort_keys_Perm (e ∷ es) =
    Permᴰ.trans (Permᴰ.cons refl (sort_keys_Perm es)) (insert_sorted-Perm e (sort_keys es))

-- In front of a sorted list.
insert_sorted-front :
    (e : KeyToTableIter) (es : List KeyToTableIter)
    → IsSorted (e ∷ es)
    → NamesEntries (e ∷ es)
    → insert_sorted e es ≡ e ∷ es
unfolding insert_sorted IsSorted NamesEntries
insert_sorted-front e [] sorted names = refl
insert_sorted-front e (x ∷ xs) sorted names = elim (Bool-cases (text_lt e.0 x.0)) [
  | inl less ↦ insert_sorted-first e x xs less
  | inr ex ↦
      let e≡x =
        names e x (Memᴰ.head refl) (Memᴰ.tail (Memᴰ.head refl))
          (text_lt_total e.0 x.0 ex sorted.0) in
      insert_sorted-later e x xs ex
      ∙ rw (e≡x)
          (ap (λ ys. x ∷ ys) (insert_sorted-front x xs sorted.1 (NamesEntries-tail _ _ names)))
]

sort_keys_sorted : (es : List KeyToTableIter) → IsSorted es → NamesEntries es → sort_keys es ≡ es
unfolding sort_keys IsSorted
sort_keys_sorted [] sorted names = refl
sort_keys_sorted (e ∷ []) sorted names = insert_sorted-front e [] sorted names
sort_keys_sorted (e ∷ x ∷ xs) sorted names =
    ap (insert_sorted e) (sort_keys_sorted (x ∷ xs) sorted.1 (NamesEntries-tail _ _ names))
    ∙ insert_sorted-front e (x ∷ xs) sorted names

-- Where no two entries have the same text, `sort_keys` is what every implementation of `std::sort` gives:
-- its result has the same entries and is sorted, and every other list with these entries that is
-- sorted, whatever the order of the input, is equal to it.
pub sort_keys_unique :
    (xs ys : List KeyToTableIter)
    → NamesEntries xs
    → (Permᴰ xs (sort_keys xs) × IsSorted (sort_keys xs))
      × (Permᴰ xs ys → IsSorted ys → ys ≡ sort_keys xs)
sort_keys_unique xs ys names = (
  (sort_keys_Perm xs, sort_keys-IsSorted xs),
  λ perm sorted.
      sym (sort_keys_sorted ys sorted (NamesEntries-Perm perm names))
      ∙ sym (sort_keys-Perm perm names),
)
