-- ===== src/Watch/Life/Invariant.antt =====
-- The abstract machine keeps the maps tied together, and never touches a watch that has ended.
use mathlib.Core.Path.{subst}
use copilot_review_mcp.Common.{
  ℕ, suc, ◌≤◌, Time, true, false, String, some, arith, ◌≡◌, ◌≢◌, ◌⊎◌, ◌==◌, string_eq, eq_iff,
  Bool-cases, inl, inr, sym, ◌∙◌, ap,
}
use copilot_review_mcp.Common.Map.{lookup}
use copilot_review_mcp.Watch.State.{WatchKey, key_eq, key_beq_iff, Watch, Manager}
use copilot_review_mcp.Watch.Life.{
  IsWellFormed, IsSuccessor, Puts, Move, kept, changed, ends, created, Moves, here, next, Inv,
}

module _ {S : Type 0} (name : Time → ℕ → String) where
  Puts-cases :
      (v : Watch) (m n : Manager S) (id : String) (w : Watch)
      → Puts v m n
      → lookup id n.watches_by_id ≡ some w
      → ((v.id ≡ id) × (v ≡ w)) ⊎ ((v.id ≢ id) × (lookup id m.watches_by_id ≡ some w))
  Puts-cases v m n id w p e = elim (Bool-cases (v.id == id)) [
    | inl q ↦ inl ((eq_iff v.id id).0 q, ground (arith, p id))
    | inr q ↦ inr (ground (arith, eq_iff v.id id), ground (arith, p id))
  ]

  -- The watch with an id, before and after another was put.
  put_found : (v : Watch) (m n : Manager S) → Puts v m n → lookup v.id n.watches_by_id ≡ some v
  put_found v m n p = ground (arith, p v.id, eq_iff v.id v.id)

  put_other :
      (v : Watch) (m n : Manager S) (id : String)
      → Puts v m n
      → v.id ≢ id
      → lookup id n.watches_by_id ≡ lookup id m.watches_by_id
  put_other v m n id p q = ground (arith, p id, eq_iff v.id id)

  -- A watch under a key stands in the map after its successor is put.
  put_keyed :
      (u v : Watch) (m n : Manager S) (k : WatchKey) (id : String)
      → IsSuccessor m u v
      → Puts v m n
      → (w : Watch) × (lookup id m.watches_by_id ≡ some w) × (w.key ≡ k)
      → (w : Watch) × (lookup id n.watches_by_id ≡ some w) × (w.key ≡ k)
  put_keyed u v m n k id s p (w, f, e) = elim (Bool-cases (v.id == id)) [
    | inl q ↦ (v, ground (arith, p id), ground (arith, s, eq_iff v.id id))
    | inr q ↦ (w, ground (arith, p id), e)
  ]

  -- Two watches with one id are one.
  one_watch :
      (u v w : Watch) {m : Manager S} (k : WatchKey) (id : String)
      → IsSuccessor m u v
      → lookup id m.watches_by_id ≡ some w
      → w.key ≡ k
      → v.id ≡ id
      → v.key ≡ k
  one_watch u v w k id s f q b = ground (arith, s)

  put-formed :
      (v : Watch) (m n : Manager S)
      → Inv name m
      → IsWellFormed v
      → Puts v m n
      → (id : String) (w : Watch) → lookup id n.watches_by_id ≡ some w
      → IsWellFormed w
  put-formed v m n h f p id w e = elim (Puts-cases v m n id w p e) [
    | inl (q, r) ↦ subst IsWellFormed r f
    | inr (q, r) ↦ h.formed id w r
  ]

  module _ {m n : Manager S} (h : Inv name m) where
    Move-named :
        Move name m n → (id : String) (w : Watch) → lookup id n.watches_by_id ≡ some w → w.id ≡ id
    Move-named (kept p a l g) id w e = h.named id w (ground (arith, p id))
    Move-named (changed u v s t p a l g) id w e =
        ground (arith, Puts-cases v m n id w p e, h.named id w)
    Move-named (ends u v s t p a l g) id w e =
        ground (arith, Puts-cases v m n id w p e, h.named id w)
    Move-named (created v c i q f k s t p a l) id w e =
        ground (arith, Puts-cases v m n id w p e, h.named id w)

    Move-formed :
        Move name m n
        → (id : String) (w : Watch) → lookup id n.watches_by_id ≡ some w
        → IsWellFormed w
    Move-formed (kept p a l g) id w e = h.formed id w (ground (arith, p id))
    Move-formed (changed u v s t p a l g) id w e = put-formed v m n h s.formed p id w e
    Move-formed (ends u v s t p a l g) id w e = put-formed v m n h s.formed p id w e
    Move-formed (created v c i q f k s t p a l) id w e = put-formed v m n h s p id w e

    Move-active_lives :
        Move name m n
        → (k : WatchKey) (id : String) → lookup k n.active_by_key ≡ some id
        → (w : Watch) × (lookup id n.watches_by_id ≡ some w) × (w.key ≡ k) × (w.terminal ≡ false)
    Move-active_lives (kept p a l g) k id e =
        let (w, f, q, t) = h.active_lives k id (ground (arith, a k)) in
        (w, ground (arith, p id), q, t)
    Move-active_lives (changed u v s t p a l g) k id e =
        let (w, f, q, r) = h.active_lives k id (ground (arith, a k)) in
        elim (Bool-cases (v.id == id)) [
          | inl b ↦ (v, ground (arith, p id), ground (arith, s, eq_iff v.id id), t)
          | inr b ↦ (w, ground (arith, p id), q, r)
        ]
    Move-active_lives (ends u v s t p a l g) k id e =
        let (w, f, q, r) = h.active_lives k id (ground (arith, a k)) in
        let apart : v.key ≢ k = λ b. ground (arith, a k, key_beq_iff v.key k) in
        let other : v.id ≢ id = λ b. apart (one_watch u v w k id s f q b) in
        (w, put_other v m n id p other ∙ f, q, r)
    Move-active_lives (created v c i q' f g s t p a l) k id e = elim (Bool-cases (v.key == k)) [
      | inl b ↦ (v, ground (arith, a k, put_found v m n p), (key_beq_iff v.key k).0 b, t)
      | inr b ↦
          let (w, f', q, r) = h.active_lives k id (ground (arith, a k)) in
          let other : v.id ≢ id = λ c. cc (ap (λ j. lookup j m.watches_by_id) c) in
          (w, put_other v m n id p other ∙ f', q, r)
    ]

    Move-alive_listed :
        Move name m n
        → (id : String) (w : Watch) → lookup id n.watches_by_id ≡ some w
        → w.terminal ≡ false
        → lookup w.key n.active_by_key ≡ some id
    Move-alive_listed (kept p a l g) id w e t = a w.key ∙ h.alive_listed id w (sym (p id) ∙ e) t
    Move-alive_listed (changed u v s t p a l g) id w e r = elim (Puts-cases v m n id w p e) [
      | inl (q, c) ↦
          ground (arith, a w.key, h.alive_listed u.id u s.found s.alive, s.same_id, s.same_key)
      | inr (q, c) ↦ a w.key ∙ h.alive_listed id w c r
    ]
    Move-alive_listed (ends u v s t p a l g) id w e r = elim (Puts-cases v m n id w p e) [
      | inl (q, c) ↦ cc (ap (λ (x : Watch). x.terminal) c)
      | inr (q, c) ↦
          let listed = h.alive_listed id w c r in
          ground (
            arith,
            a w.key,
            h.alive_listed u.id u s.found s.alive,
            s.same_id,
            s.same_key,
            key_beq_iff v.key w.key,
          )
    ]
    Move-alive_listed (created v c i q' f g s t p a l) id w e r = elim (Puts-cases v m n id w p e) [
      | inl (q, c) ↦ ground (arith, a w.key, key_beq_iff v.key w.key)
      | inr (q, c) ↦ ground (arith, a w.key, h.alive_listed id w c r, key_beq_iff v.key w.key)
    ]

    Move-latest_known :
        Move name m n
        → (k : WatchKey) (id : String) → lookup k n.latest_by_key ≡ some id
        → (w : Watch) × (lookup id n.watches_by_id ≡ some w) × (w.key ≡ k)
    Move-latest_known (kept p a l g) k id e =
        let (w, f, q) = h.latest_known k id (sym (l k) ∙ e) in (w, p id ∙ f, q)
    Move-latest_known (changed u v s t p a l g) k id e =
        put_keyed u v m n k id s p (h.latest_known k id (sym (l k) ∙ e))
    Move-latest_known (ends u v s t p a l g) k id e =
        put_keyed u v m n k id s p (h.latest_known k id (sym (l k) ∙ e))
    Move-latest_known (created v c i q' f g s t p a l) k id e = elim (Bool-cases (v.key == k)) [
      | inl b ↦ (v, ground (arith, l k, put_found v m n p), (key_beq_iff v.key k).0 b)
      | inr b ↦
          let (w, f', q) = h.latest_known k id (ground (arith, l k)) in
          let other : v.id ≢ id = λ c. cc (ap (λ j. lookup j m.watches_by_id) c) in
          (w, put_other v m n id p other ∙ f', q)
    ]

  Move-numbered :
      {m n : Manager S}
      → Inv name m
      → Move name m n
      → (id : String) (w : Watch) → lookup id n.watches_by_id ≡ some w
      → (t : Time) × (i : ℕ) × (id ≡ name t i) × (i ≤ n.id_seq)
  Move-numbered h (kept p a l g) id w e =
      let (t, i, q, b) = h.numbered id w (sym (p id) ∙ e) in (t, i, q, omega arith)
  Move-numbered {m} {n} h (changed u v s r p a l g) id w e = elim (Puts-cases v m n id w p e) [
    | inl (q, c) ↦
        let (t, i, x, b) = h.numbered u.id u s.found in (t, i, sym q ∙ s.same_id ∙ x, omega arith)
    | inr (q, c) ↦ let (t, i, x, b) = h.numbered id w c in (t, i, x, omega arith)
  ]
  Move-numbered {m} {n} h (ends u v s r p a l g) id w e = elim (Puts-cases v m n id w p e) [
    | inl (q, c) ↦
        let (t, i, x, b) = h.numbered u.id u s.found in (t, i, sym q ∙ s.same_id ∙ x, omega arith)
    | inr (q, c) ↦ let (t, i, x, b) = h.numbered id w c in (t, i, x, omega arith)
  ]
  Move-numbered {m} {n} h (created v t x b f k s r p a l) id w e =
      elim (Puts-cases v m n id w p e) [
        | inl (q, c) ↦ (t, suc m.id_seq, sym q ∙ x, b.0)
        | inr (q, c) ↦ let (t, i, x, b') = h.numbered id w c in (t, i, x, omega arith)
      ]

  Move-Inv : {m n : Manager S} → Move name m n → Inv name m → Inv name n
  Move-Inv v h = record {
    named = Move-named h v;
    formed = Move-formed h v;
    active_lives = Move-active_lives h v;
    alive_listed = Move-alive_listed h v;
    latest_known = Move-latest_known h v;
    numbered = Move-numbered h v;
  }

  pub Moves-Inv : {m n : Manager S} → Moves name m n → Inv name m → Inv name n
  Moves-Inv here h = h
  Moves-Inv (next r v) h = Move-Inv v (Moves-Inv r h)

  -- A watch that has ended stays as it is.
  Move-ended :
      {m n : Manager S} (id : String) (w : Watch)
      → Move name m n
      → lookup id m.watches_by_id ≡ some w
      → w.terminal ≡ true
      → lookup id n.watches_by_id ≡ some w
  Move-ended id w (kept p a l g) e t = p id ∙ e
  Move-ended id w (changed u v s r p a l g) e t =
      ground (arith, p id, s.found, s.alive, s.same_id, eq_iff v.id id)
  Move-ended id w (ends u v s r p a l g) e t =
      ground (arith, p id, s.found, s.alive, s.same_id, eq_iff v.id id)
  Move-ended id w (created v c i q f g s r p a l) e t = ground (arith, p id, eq_iff v.id id)

  pub Moves-ended :
      {m n : Manager S} (id : String) (w : Watch)
      → Moves name m n
      → lookup id m.watches_by_id ≡ some w
      → w.terminal ≡ true
      → lookup id n.watches_by_id ≡ some w
  Moves-ended id w here e t = e
  Moves-ended id w (next r v) e t = Move-ended id w v (Moves-ended id w r e t) t

  pub Moves-joined : {m n o : Manager S} → Moves name m n → Moves name n o → Moves name m o
  Moves-joined r here = r
  Moves-joined r (next s v) = next (Moves-joined r s) v

  pub Moves-at : {m n o : Manager S} → n ≡ o → Moves name m o → Moves name m n
  Moves-at e r = subst (Moves name _) (sym e) r
