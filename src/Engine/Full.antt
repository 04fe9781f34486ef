-- ===== src/Engine/Full.antt =====
-- `MultiAssetEngine::process` where the book has no node for the order.
use ultra_low_latency_order.Prelude.{
  ℕ, ◌≡◌, refl, ◌∙◌, ap, false, [], done, ◌==◌, Bool-cases, inl, inr, update, leb, max, add64,
  ==→eq,
}
use ultra_low_latency_order.Types.{num_symbols, Order, RejectReason, err}
use ultra_low_latency_order.Engine.{MultiAssetEngine, stamp, process}
use ultra_low_latency_order.Engine.Anonymous.{run_stamped, process-run}
use ultra_low_latency_order.Arena.Nodes.{null_idx}
use ultra_low_latency_order.Book.Full.{
  IsApart, IsResting, IsResting-with_id, IsApart-with_id, counting, process-full,
}

-- In each book, the counter of order ids is all that differs.
abbrev pub SameBooks : MultiAssetEngine → MultiAssetEngine → Type 0
SameBooks e e' = (s : ℕ) → (k : ℕ) × (e'.books s ≡ counting (e.books s) k)

stamp-counts :
    (e : MultiAssetEngine) (o : Order)
    → (i : ℕ) × (g : ℕ) × (stamp e o
        ≡ (record o { id = i }, record e { global_order_id_counter = g }))
unfolding stamp
stamp-counts e o = elim (Bool-cases (o.id == 0)) [
  | inl fresh ↦ (e.global_order_id_counter, add64 e.global_order_id_counter 1, rw fresh refl)
  | inr own ↦ (o.id, max e.global_order_id_counter (add64 o.id 1), rw own refl)
]

pub engine_process-full :
    (e : MultiAssetEngine) (o : Order) (c : ℕ)
    → leb num_symbols o.symbol_id ≡ false
    → IsResting o
    → IsApart (e.books o.symbol_id) o
    → (e.books o.symbol_id).order_arena.free_head ≡ null_idx
    → (e' : MultiAssetEngine) × (process e o c [] ≡ done (err RejectReason.engine_full, e', []))
      × SameBooks e e'
engine_process-full e o c known h apart full =
    let (i, g, stamps) = stamp-counts e o in
    let e1 : MultiAssetEngine = record e { global_order_id_counter = g } in
    let o1 : Order = record o { id = i } in
    let (k, refuses) =
      process-full (e.books o.symbol_id) o1 c [] (IsResting-with_id o i h)
        (IsApart-with_id (e.books o.symbol_id) o i apart) full in
    (
      record e1 { books = update e.books o.symbol_id (counting (e.books o.symbol_id) k) },
      process-run e o c [] known ∙ ap (run_stamped o.symbol_id c []) stamps ∙ rw refuses refl,
      λ s. elim (Bool-cases (o.symbol_id == s)) [
        | inl here ↦ (k, rw here (ap (λ j. counting (e.books j) k) (==→eq o.symbol_id s here)))
        | inr elsewhere ↦ ((e.books s).order_id_counter, rw elsewhere refl)
      ],
    )
