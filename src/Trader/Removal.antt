-- ===== src/Trader/Removal.antt =====
-- Swap-removal from the slice of new positions, by key.
use lightspeed_trading_clean.Base.{
  ℕ, zero, suc, ◌≡◌, refl, Option, none, some, List, [], ◌∷◌, arith, if◌then◌else◌, set, get_last?,
  drop_last,
}
use lightspeed_trading_clean.Trader.{TraderPosition, swap_remove}
use lightspeed_trading_clean.Trader.Keys.{Key, key_eq, key_eq_iff, position_key, find, Distinct}

-- Where the position of a key stands.
unfoldable pub index_of : {F : Type 0} → Key → List (TraderPosition F) → Option ℕ
index_of k [] = none
index_of k (p ∷ ps) =
    if key_eq (position_key p) k
    then some 0
    else (elim (index_of k ps) [ none ↦ none | some j ↦ some (suc j) ])

module _ {F : Type 0} where
  last_of : TraderPosition F → List (TraderPosition F) → TraderPosition F
  last_of p [] = p
  last_of p (q ∷ qs) = last_of q qs

  get_last?-last_of :
      (p : TraderPosition F) (ps : List (TraderPosition F))
      → get_last? (p ∷ ps) ≡ some (last_of p ps)
  unfolding last_of
  get_last?-last_of p [] = refl
  get_last?-last_of p (q ∷ qs) = get_last?-last_of q qs

  swap_remove-eq :
      (ps : List (TraderPosition F)) (i : ℕ) (z : TraderPosition F)
      → get_last? ps ≡ some z
      → swap_remove ps i ≡ drop_last (set ps i z)
  unfolding swap_remove
  swap_remove-eq ps i z e = rw (e, swap_remove)

  swap_remove-suc :
      (x y : TraderPosition F) (r : List (TraderPosition F)) (j : ℕ)
      → swap_remove (x ∷ y ∷ r) (suc j) ≡ x ∷ swap_remove (y ∷ r) j
  swap_remove-suc x y r zero =
      let e = get_last?-last_of y r in
      rw (swap_remove-eq (x ∷ y ∷ r) 1 _ e, swap_remove-eq (y ∷ r) 0 _ e)
  swap_remove-suc x y r (suc j) =
      let e = get_last?-last_of y r in
      rw (swap_remove-eq (x ∷ y ∷ r) (suc (suc j)) _ e, swap_remove-eq (y ∷ r) (suc j) _ e)

  swap_remove_zero :
      (x y : TraderPosition F) (r : List (TraderPosition F))
      → swap_remove (x ∷ y ∷ r) 0 ≡ last_of y r ∷ drop_last (y ∷ r)
  swap_remove_zero x y r = swap_remove-eq (x ∷ y ∷ r) 0 _ (get_last?-last_of y r)

  -- Moving the last position to the front changes no search by key.
  find-drop_last :
      (k : Key) (y : TraderPosition F) (r : List (TraderPosition F))
      → Distinct (y ∷ r)
      → find k (last_of y r ∷ drop_last (y ∷ r)) ≡ find k (y ∷ r)
  unfolding find last_of
  find-drop_last k y [] d = refl
  find-drop_last k y (z ∷ r) d = ground (
    arith,
    find-drop_last k z r d.1,
    find-drop_last (position_key y) z r d.1,
    key_eq_iff (position_key (last_of z r)) k,
    key_eq_iff (position_key (last_of z r)) (position_key y),
    key_eq_iff (position_key y) k,
  )

  last_of-Distinct :
      (y : TraderPosition F) (r : List (TraderPosition F))
      → Distinct (y ∷ r)
      → Distinct (last_of y r ∷ drop_last (y ∷ r))
  unfolding find last_of
  last_of-Distinct y [] d = d
  last_of-Distinct y (z ∷ r) d = ground (
    arith,
    last_of-Distinct z r d.1,
    find-drop_last (position_key y) z r d.1,
    key_eq_iff (position_key (last_of z r)) (position_key y),
    key_eq_iff (position_key y) (position_key (last_of z r)),
  )

  pub find-swap_remove :
      (k q : Key) (ps : List (TraderPosition F)) (j : ℕ)
      → Distinct ps
      → index_of k ps ≡ some j
      → find q (swap_remove ps j) ≡ (if key_eq k q then none else find q ps)
  unfolding find index_of
  find-swap_remove k q [] j d e = cc
  find-swap_remove k q (x ∷ []) zero d e = ground (
    arith,
    swap_remove-eq (x ∷ []) 0 x refl,
    key_eq_iff (position_key x) k,
    key_eq_iff (position_key x) q,
    key_eq_iff k q,
  )
  find-swap_remove k q (x ∷ []) (suc j) d e = ground arith
  find-swap_remove k q (x ∷ y ∷ r) zero d e = rw (swap_remove_zero x y r) (
      ground (
        arith,
        find-drop_last q y r d.1,
        key_eq_iff (position_key x) k,
        key_eq_iff (position_key x) q,
        key_eq_iff k q,
      ))
  find-swap_remove k q (x ∷ y ∷ r) (suc j) d e = rw (swap_remove-suc x y r j) (
      ground (
        arith,
        find-swap_remove k q (y ∷ r) j d.1,
        key_eq_iff (position_key x) k,
        key_eq_iff (position_key x) q,
        key_eq_iff k q,
      ))

  pub swap_remove-Distinct :
      (k : Key) (ps : List (TraderPosition F)) (j : ℕ)
      → Distinct ps
      → index_of k ps ≡ some j
      → Distinct (swap_remove ps j)
  unfolding index_of
  swap_remove-Distinct k [] j d e = cc
  swap_remove-Distinct k (x ∷ []) zero d e = rw (swap_remove-eq (x ∷ []) 0 x refl) tt
  swap_remove-Distinct k (x ∷ []) (suc j) d e = ground arith
  swap_remove-Distinct k (x ∷ y ∷ r) zero d e =
      rw (swap_remove_zero x y r) (last_of-Distinct y r d.1)
  swap_remove-Distinct k (x ∷ y ∷ r) (suc j) d e = rw (swap_remove-suc x y r j) (
      ground (
        arith,
        swap_remove-Distinct k (y ∷ r) j d.1,
        find-swap_remove k (position_key x) (y ∷ r) j d.1,
      ))
