-- ===== src/Std/Sort/Laws.antt =====
-- A stable sort by integer keys: its result is ascending, has the elements that it was given, and
-- does not depend on their order if the keys are distinct.
use mathlib.Core.List.{Perm, Permᴰ, Pairwise, Pairwise-cons, mem-cons_self}
use mathlib.Core.List.Perm
use mathlib.Core.HLevel.{¬_prop}
use mathlib.Core.Logic.{∥∥₁_elim}
use mathlib.Core.Path.{ap₂}
use mathlib.Core.List.Permᴰ
use golang_fin.Prelude.{
  ◌≡◌, ◌≢◌, refl, sym, ◌∙◌, Bool, false, List, [], ◌∷◌, arith, All, Bool-cases, inl, inr,
}
use golang_fin.Prelude.Int.{ℤ, pos, negsuc, ltb_ℤ, ◌≤ℤ◌}
use golang_fin.Std.Sort.{insert_stable, sort_stable}

eq_of_order : (m n : ℤ) → ltb_ℤ m n ≡ false → ltb_ℤ n m ≡ false → m ≡ n
eq_of_order (pos m) (pos n) h k = ground arith
eq_of_order (negsuc m) (negsuc n) h k = ground arith
eq_of_order (pos m) (negsuc n) h k = ground arith
eq_of_order (negsuc m) (pos n) h k = ground arith

module _ {A : Type 0} (key : A → ℤ) where
  abbrev pub less : A → A → Bool
  less x y = ltb_ℤ (key x) (key y)

  abbrev pub Apart : A → A → Type 0
  Apart x y = key x ≢ key y

  eq_of_not_less : (x y : A) → less x y ≡ false → less y x ≡ false → key x ≡ key y
  eq_of_not_less x y h k = eq_of_order (key x) (key y) h k

  insert_swap :
      (x y : A) (l : List A)
      → Apart x y
      → insert_stable less x (insert_stable less y l)
        ≡ insert_stable less y (insert_stable less x l)
  unfolding insert_stable
  insert_swap x y [] h = ground (arith, eq_of_not_less x y, h)
  insert_swap x y (z ∷ l) h = ground (arith, eq_of_not_less x y, insert_swap x y l h)

  sort-permᴰ :
      {l m : List A} → Permᴰ l m → Pairwise Apart l → sort_stable less l ≡ sort_stable less m
  unfolding sort_stable
  sort-permᴰ Permᴰ.nil d = refl
  sort-permᴰ (Permᴰ.cons {a = x} e p) d =
      ap₂ (insert_stable less) e (sort-permᴰ p (Pairwise-cons.0 d).1)
  sort-permᴰ (Permᴰ.swap {a = x} {b = y} {l = l} e e') d =
      insert_swap x y (sort_stable less l) ((Pairwise-cons.0 d).0 y mem-cons_self)
      ∙ ap₂ (λ u v. insert_stable less u (insert_stable less v (sort_stable less l))) e' e
  sort-permᴰ (Permᴰ.trans p q) d =
      sort-permᴰ p d ∙ sort-permᴰ q (Permᴰ.pairwise (λ a b. ¬_prop) (λ a b h e. h (sym e)) p d)

  -- Ascending keys.
  abbrev pub Ascending : List A → Type 0
  Ascending [] = Unit
  Ascending (x ∷ xs) = All (λ y. key x ≤ℤ key y) xs × Ascending xs

  All-insert :
      (P : A → Type 0) (x : A) (l : List A) → P x → All P l → All P (insert_stable less x l)
  unfolding insert_stable
  All-insert P x [] p h = (p, tt)
  All-insert P x (y ∷ l) p h = ground (arith, All-insert P x l p)

  All_weaken : (m n : ℤ) (l : List A) → m ≤ℤ n → All (λ z. n ≤ℤ key z) l → All (λ z. m ≤ℤ key z) l
  All_weaken m n [] h k = tt
  All_weaken m n (z ∷ l) h k = (omega (arith, k.0), All_weaken m n l h k.1)

  insert-Ascending : (x : A) (l : List A) → Ascending l → Ascending (insert_stable less x l)
  unfolding insert_stable
  insert-Ascending x [] h = (tt, tt)
  insert-Ascending x (y ∷ l) h = elim (Bool-cases (less y x)) [
    | inl before ↦
        rw before
          (All-insert (λ z. key y ≤ℤ key z) x l (ground arith) h.0, insert-Ascending x l h.1)
    | inr after ↦ rw after ((ground arith, All_weaken (key x) (key y) l (ground arith) h.0), h)
  ]

  pub sort-Ascending : (l : List A) → Ascending (sort_stable less l)
  unfolding sort_stable
  sort-Ascending [] = tt
  sort-Ascending (x ∷ l) = insert-Ascending x (sort_stable less l) (sort-Ascending l)

  insert-perm : (x : A) (l : List A) → Perm (insert_stable less x l) (x ∷ l)
  unfolding insert_stable
  insert-perm x [] = Perm.refl _
  insert-perm x (y ∷ l) = elim (Bool-cases (less y x)) [
    | inl before ↦ rw before (Perm.trans (Perm.cons y (insert-perm x l)) (Perm.swap x y l))
    | inr after ↦ rw after (Perm.refl _)
  ]

  pub sort-perm : (l : List A) → Perm (sort_stable less l) l
  unfolding sort_stable
  sort-perm [] = Perm.refl _
  sort-perm (x ∷ l) = Perm.trans (insert-perm x (sort_stable less l)) (Perm.cons x (sort-perm l))

  -- The sort forgets the order of elements with distinct keys.
  pub sort-perm_invariant :
      IsSet (List A)
      → {l m : List A} → Perm l m
      → Pairwise Apart l
      → sort_stable less l ≡ sort_stable less m
  sort-perm_invariant is_set p d = ∥∥₁_elim p (is_set _ _) (λ p'. sort-permᴰ p' d)
