-- ===== src/NsmLib/Description/Arrays.antt =====
-- The fixed arrays that nsm_get_description fills: what its loop and its copies leave in them.
use mathlib.Core.List.{append_assoc}
use aws_nitro_enclaves_nsm_a.Base.{
  ℕ, zero, suc, ◌≤◌, ◌<◌, ◌≡◌, refl, true, List, [], ◌∷◌, ◌++◌, none, some, Bytes, arith, leb,
  length, get_elem?, take, drop, length-append, length-take,
}
use aws_nitro_enclaves_nsm_a.Machine.{World, ok, panic, index_out_of_bounds}
use aws_nitro_enclaves_nsm_a.NsmLib.Description.{
  set?, set_or_panic, fill_locked_pcrs, copy_from_slice,
}

module _ {ℓ} {A : Type ℓ} where
  set?-append :
      (pre rest : List A) (x v : A) → set? (pre ++ x ∷ rest) (length pre) v ≡ some (pre ++ v ∷ rest)
  unfolding set?
  set?-append [] rest x v = refl
  set?-append (y ∷ pre) rest x v = rw (set?-append pre rest x v)

  set?-end : (pre : List A) (v : A) → set? (pre ++ []) (length pre) v ≡ none
  unfolding set?
  set?-end [] v = refl
  set?-end (y ∷ pre) v = rw (set?-end pre v)

  pub get_elem?-append :
      (pre rest : List A) (v : A) → get_elem? (pre ++ v ∷ rest) (length pre) ≡ some v
  get_elem?-append [] rest v = refl
  get_elem?-append (y ∷ pre) rest v = get_elem?-append pre rest v

  drop-suc : (n : ℕ) (xs : List A) → n < length xs → (x : A) × (drop n xs ≡ x ∷ drop (suc n) xs)
  drop-suc n [] h = absurd (omega arith)
  drop-suc zero (x ∷ xs) h = (x, refl)
  drop-suc (suc n) (x ∷ xs) h = drop-suc n xs (omega arith)

  length-snoc : (pre : List A) (v : A) → length (pre ++ v ∷ []) ≡ suc (length pre)
  length-snoc pre v = omega (arith, length-append pre (v ∷ []))

module _ {K : Type 0} (w : World K) where
  -- The loop writes the values from its index on, over what stood there.
  fill_locked_pcrs-append :
      (vals pre rest : List ℕ)
      → length vals ≤ length rest
      → fill_locked_pcrs (length pre) vals (pre ++ rest) w
        ≡ ok (pre ++ (vals ++ drop (length vals) rest)) w
  unfolding fill_locked_pcrs
  fill_locked_pcrs-append [] pre rest h = refl
  fill_locked_pcrs-append (v ∷ vals) pre [] h = absurd (omega arith)
  fill_locked_pcrs-append (v ∷ vals) pre (x ∷ rest) h =
      let ih = fill_locked_pcrs-append vals (pre ++ v ∷ []) rest (omega arith) in
      let left = append_assoc pre (v ∷ []) rest in
      let right = append_assoc pre (v ∷ []) (vals ++ drop (length vals) rest) in
      rw (set?-append pre rest x v, set_or_panic) (rw (length-snoc pre v, left, right) at ih)

  -- It panics at the first value that has no place.
  fill_locked_pcrs_overrun :
      (vals pre rest : List ℕ)
      → length rest < length vals
      → fill_locked_pcrs (length pre) vals (pre ++ rest) w ≡ panic index_out_of_bounds w
  unfolding fill_locked_pcrs
  fill_locked_pcrs_overrun [] pre rest h = absurd (omega arith)
  fill_locked_pcrs_overrun (v ∷ vals) pre [] h = rw (set?-end pre v, set_or_panic)
  fill_locked_pcrs_overrun (v ∷ vals) pre (x ∷ rest) h =
      let ih = fill_locked_pcrs_overrun vals (pre ++ v ∷ []) rest (omega arith) in
      rw (set?-append pre rest x v, set_or_panic) (rw (length-snoc pre v, append_assoc) at ih)

  pub fill_locked_pcrs-fits :
      (vals array : List ℕ)
      → length vals ≤ length array
      → fill_locked_pcrs 0 vals array w ≡ ok (vals ++ drop (length vals) array) w
  fill_locked_pcrs-fits vals array h = fill_locked_pcrs-append vals [] array h

  pub fill_locked_pcrs-panic :
      (vals array : List ℕ)
      → length array < length vals
      → fill_locked_pcrs 0 vals array w ≡ panic index_out_of_bounds w
  fill_locked_pcrs-panic vals array h = fill_locked_pcrs_overrun vals [] array h

  pub copy_from_slice-append :
      (array src : Bytes) (n : ℕ)
      → n ≤ length array
      → n ≤ length src
      → copy_from_slice array src n w ≡ ok (take n src ++ drop n array) w
  unfolding copy_from_slice
  copy_from_slice-append array src n h h' =
      let inside : leb n (length array) ≡ true = ground arith in
      let inside' : leb n (length src) ≡ true = ground arith in rw (inside, inside')

  -- The byte behind a copied prefix.
  pub set_or_panic-terminated :
      (array src : Bytes) (n : ℕ)
      → n < length array
      → n ≤ length src
      → set_or_panic (take n src ++ drop n array) n 0 w
        ≡ ok (take n src ++ 0 ∷ drop (suc n) array) w
  set_or_panic-terminated array src n h h' =
      let (x, e) = drop-suc n array h in
      let l : length (take n src) ≡ n = omega (arith, length-take n src) in
      let written = set?-append (take n src) (drop (suc n) array) x 0 in
      rw (e, rw l at written, set_or_panic)
