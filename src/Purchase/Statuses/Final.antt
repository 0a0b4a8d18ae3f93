-- ===== src/Purchase/Statuses/Final.antt =====
-- What any calls of the purchase-order tools of internal/tools/purchase_order_lifecycle_tools.go and
-- purchase_order_completion_tools.go do to the status of an order.
use inventree_mcp.Prelude.{
  String, Option, List, [], ◌∷◌, false, ◌≡◌, ◌⊎◌, inl, inr, refl, subst, sym, ◌∙◌, ℤ, eq_int,
  eq_int_iff,
}
use inventree_mcp.Stock.Decimal.{Floats}
use inventree_mcp.Purchase.Orders.{
  PurchaseOrderLineItem, PurchaseOrderExtraLine, Transition, hold, issue, cancel, complete,
  OrderClient, Sorting, purchase_order_status_complete, purchase_order_status_cancelled,
}
use inventree_mcp.Purchase.Plans.{LifecycleDigest, LifecyclePlanStore}
use inventree_mcp.Purchase.Handlers.Prepared.{May}
use inventree_mcp.Purchase.Completion.{CompletionHash}
use inventree_mcp.Purchase.Statuses.{
  Move, move, Reach, here, next, Faithful, Call, lifecycle, completing, serve, serve_all,
}
use inventree_mcp.Purchase.Statuses.Moves.{run_tool-Moved, completion-Moved}

Reach-trans : {s t u : ℤ} → Reach s t → Reach t u → Reach s u
Reach-trans r here = r
Reach-trans r (next q m) = next (Reach-trans r q) m

-- the statuses that no move leaves
abbrev pub IsFinal : ℤ → Type 0
IsFinal s = (s ≡ purchase_order_status_complete) ⊎ (s ≡ purchase_order_status_cancelled)

apart : (a b s : ℤ) → eq_int a b ≡ false → s ≡ a → s ≡ b → ⊥
apart a b s h p q = cc ((eq_int_iff a b).1 (sym p ∙ q))

May-final : (m : Transition) (s : ℤ) → IsFinal s → ¬ (May m s)
May-final (hold id) s (inl a) (inl b) = apart _ _ s refl a b
May-final (hold id) s (inl a) (inr b) = apart _ _ s refl a b
May-final (hold id) s (inr a) (inl b) = apart _ _ s refl a b
May-final (hold id) s (inr a) (inr b) = apart _ _ s refl a b
May-final (issue id) s (inl a) b = apart _ _ s refl a b
May-final (issue id) s (inr a) b = apart _ _ s refl a b
May-final (cancel id) s (inl a) (b, c) = b a
May-final (cancel id) s (inr a) (b, c) = c a
May-final (complete id) s (inl a) b = apart _ _ s refl a b
May-final (complete id) s (inr a) b = apart _ _ s refl a b

Move-final : {s t : ℤ} → IsFinal s → ¬ (Move s t)
Move-final {s} final (move m may after) = May-final m s final may

Reach-final : {s t : ℤ} → IsFinal s → Reach s t → t ≡ s
Reach-final final here = refl
Reach-final {s} final (next r m) =
    absurd (Move-final (subst IsFinal (sym (Reach-final final r)) final) m)

one_move : {s t : ℤ} → (t ≡ s) ⊎ Move s t → Reach s t
one_move {s} (inl same) = subst (Reach s) (sym same) here
one_move (inr m) = next here m

module _ {F W C : Type 0} (project : String → String)
    ⦃lines_sorting : Sorting (PurchaseOrderLineItem F)⦄
    ⦃extra_sorting : Sorting (PurchaseOrderExtraLine F)⦄ ⦃fl : Floats F⦄ ⦃d : LifecycleDigest F⦄
    ⦃h : CompletionHash F⦄ (client : OrderClient F W) (status_of : W → ℤ → ℤ)
    (f : Faithful client status_of) where
  serve-Reach :
      (store : Option (LifecyclePlanStore C)) (w : W) (call : Call C) (o : ℤ)
      → Reach (status_of w o) (status_of (serve project client store w call).1 o)
  unfolding serve
  serve-Reach store w (lifecycle kind env c id) o =
      one_move (run_tool-Moved project client status_of f kind store env c id w o)
  serve-Reach store w (completing c id) o =
      one_move (completion-Moved project client status_of f c id w o)

  -- Whatever calls of hold, resume, cancel and complete are made, in any order, by any principals, with any
  -- tokens: when InvenTree answers as `Faithful` says, the status of each order changes only to on hold
  -- from pending or placed, to placed from on hold, to complete from placed, and to cancelled from any
  -- status but complete and cancelled. The last includes statuses, such as lost and returned, that the
  -- documentation of the cancel tool does not name.
  pub serve_all-Reach :
      (store : Option (LifecyclePlanStore C)) (w : W) (calls : List (Call C)) (o : ℤ)
      → Reach (status_of w o) (status_of (serve_all project client store w calls).1 o)
  unfolding serve_all
  serve_all-Reach store w [] o = here
  serve_all-Reach store w (call ∷ calls) o = Reach-trans (serve-Reach store w call o) (
      serve_all-Reach (serve project client store w call).0 (serve project client store w call).1
        calls o)

  -- When InvenTree answers as `Faithful` says, an order that is complete or cancelled keeps its status
  -- whatever calls of the four tools are made.
  pub serve_all-IsFinal :
      (store : Option (LifecyclePlanStore C)) (w : W) (calls : List (Call C)) (o : ℤ)
      → IsFinal (status_of w o)
      → status_of (serve_all project client store w calls).1 o ≡ status_of w o
  serve_all-IsFinal store w calls o final = Reach-final final (serve_all-Reach store w calls o)
