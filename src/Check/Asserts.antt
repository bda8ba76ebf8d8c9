-- ===== src/Check/Asserts.antt =====
-- The assertions of the test programs, and commands that decide a property by passing or panicking.
use aws_nitro_enclaves_nsm_a.Base.{
  ◌≡◌, refl, ◌≢◌, ◌↔◌, ◌⊎◌, inl, inr, Bool, true, false, ◌&&◌, [], ◌∷◌, Bytes, arith, ◌==◌,
}
use aws_nitro_enclaves_nsm_a.Machine.{
  World, Panic, ok, panic, Cmd, pure, panics, assertion_failed, ◌>>◌,
}

abbrev pub assert : {K : Type 0} → Bool → Cmd K (Unit {0})
assert true = pure tt
assert false = panics assertion_failed

-- `==` of two vectors.
unfoldable pub bytes_eq : Bytes → Bytes → Bool
bytes_eq [] [] = true
bytes_eq [] (b ∷ bs) = false
bytes_eq (a ∷ as') [] = false
bytes_eq (a ∷ as') (b ∷ bs) = (a == b) && bytes_eq as' bs

pub bytes_eq-cases :
    (a b : Bytes) → ((bytes_eq a b ≡ true) × (a ≡ b)) ⊎ ((bytes_eq a b ≡ false) × (a ≢ b))
unfolding bytes_eq
bytes_eq-cases [] [] = inl (refl, refl)
bytes_eq-cases [] (b ∷ bs) = inr (refl, λ e. cc)
bytes_eq-cases (a ∷ as') [] = inr (refl, λ e. cc)
bytes_eq-cases (a ∷ as') (b ∷ bs) = ground (arith, bytes_eq-cases as' bs)

-- The command passes, and changes nothing, exactly where the property holds; else it panics.
abbrev pub Decides : {K : Type 0} → Type 0 → Cmd K (Unit {0}) → World K → Type 0
Decides P run w = (P × (run w ≡ ok tt w)) ⊎ ((¬ P) × (p : Panic) × (run w ≡ panic p w))

module _ {K : Type 0} {P Q : Type 0} (w : World K) where
  pub Decides-then :
      (m n : Cmd K (Unit {0})) → Decides P m w → Decides Q n w → Decides (P × Q) (m >> n) w
  Decides-then m n (inl (p, e)) (inl (q, e')) = inl ((p, q), rw (e, e'))
  Decides-then m n (inl (p, e)) (inr (nq, r, e')) = inr (λ h. nq h.1, r, rw (e, e'))
  Decides-then m n (inr (np, r, e)) s = inr (λ h. np h.0, r, rw e)

  pub Decides-iff : (m : Cmd K (Unit {0})) → P ↔ Q → Decides P m w → Decides Q m w
  Decides-iff m f (inl (p, e)) = inl (f.0 p, e)
  Decides-iff m f (inr (np, r, e)) = inr (λ q. np (f.1 q), r, e)

module _ {K : Type 0} {P : Type 0} (w : World K) where
  pub assert-Decides :
      (b : Bool) → ((b ≡ true) × P) ⊎ ((b ≡ false) × (¬ P)) → Decides P (assert {K = K} b) w
  assert-Decides b (inl (e, p)) = inl (p, rw e)
  assert-Decides b (inr (e, np)) = inr (np, assertion_failed, rw e)
