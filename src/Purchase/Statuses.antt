-- ===== src/Purchase/Statuses.antt =====
-- How the statuses of purchase orders move when the tools of
-- internal/tools/purchase_order_lifecycle_tools.go and purchase_order_completion_tools.go are called in any
-- order and nothing else changes an order.
pub mod Moves
pub mod Final
use inventree_mcp.Prelude.{String, Option, List, [], ◌∷◌, ◌≡◌, ◌⊎◌, ℤ, ok}
use inventree_mcp.Stock.Decimal.{Floats}
use inventree_mcp.Stock.Execute.{Confirming, Surroundings}
use inventree_mcp.Purchase.Orders.{
  PurchaseOrder, PurchaseOrderLineItem, PurchaseOrderExtraLine, Transition, hold, issue, cancel,
  complete, OrderClient, Sorting, purchase_order_status_placed, purchase_order_status_on_hold,
  purchase_order_status_complete, purchase_order_status_cancelled,
}
use inventree_mcp.Purchase.Plans.{LifecycleDigest, LifecyclePlanStore}
use inventree_mcp.Purchase.Handlers.{run_tool}
use inventree_mcp.Purchase.Handlers.Prepared.{May, Kind, tool_of}
use inventree_mcp.Purchase.Reading.{ReadsKeep}
use inventree_mcp.Purchase.Completion.{CompletionHash, complete_purchase_order}

abbrev pub order_of : Transition → ℤ
order_of (hold id) = id
order_of (issue id) = id
order_of (cancel id) = id
order_of (complete id) = id

abbrev pub status_after : Transition → ℤ
status_after (hold id) = purchase_order_status_on_hold
status_after (issue id) = purchase_order_status_placed
status_after (cancel id) = purchase_order_status_cancelled
status_after (complete id) = purchase_order_status_complete

-- One move of an order: a change that the code of one of the tools lets through.
pub data Move (s t : ℤ) : Type 0 where
  move : (m : Transition) → May m s → t ≡ status_after m → Move s t

-- Any number of them.
pub data Reach (s : ℤ) : ℤ → Type 0 where
  here : Reach s s
  next : {t u : ℤ} → Reach s t → Move t u → Reach s u

-- InvenTree as the tools rely on it: reads change no status and answer with the status that the order has; a
-- request for a change has either no effect, or that change, whatever it is answered with.
pub record Faithful {F W : Type 0} (client : OrderClient F W) (status_of : W → ℤ → ℤ) : Type 0 where
  pub reads : (o s : ℤ) → ReadsKeep client (λ w. status_of w o ≡ s)
  pub same_pk :
      (id : ℤ) (w : W) (order : PurchaseOrder)
      → (client.get_purchase_order id w).0 ≡ ok order
      → order.pk ≡ id
  pub same_status :
      (id : ℤ) (w : W) (order : PurchaseOrder)
      → (client.get_purchase_order id w).0 ≡ ok order
      → order.status ≡ status_of w id
  pub effect :
      (m : Transition) (w : W) (o : ℤ)
      → (status_of (client.transition m w).1 o ≡ status_of w o)
        ⊎ ((o ≡ order_of m) × (status_of (client.transition m w).1 o ≡ status_after m))

-- What a call of one of the four tools is given.
pub data Call (C : Type 0) : Type 0 where
  lifecycle : Kind → Surroundings C → Confirming → ℤ → Call C
  completing : Confirming → ℤ → Call C

module _ {F W C : Type 0} (project : String → String)
    ⦃lines_sorting : Sorting (PurchaseOrderLineItem F)⦄
    ⦃extra_sorting : Sorting (PurchaseOrderExtraLine F)⦄ ⦃fl : Floats F⦄ ⦃d : LifecycleDigest F⦄
    ⦃h : CompletionHash F⦄ (client : OrderClient F W) where
  unfoldable pub serve :
      Option (LifecyclePlanStore C) → W → Call C → Option (LifecyclePlanStore C) × W
  serve store w (lifecycle kind env c id) = (
    (run_tool project client (tool_of kind) store env c id w).1,
    (run_tool project client (tool_of kind) store env c id w).2,
  )
  serve store w (completing c id) = (store, (complete_purchase_order client project c id w).1)

  unfoldable pub serve_all :
      Option (LifecyclePlanStore C) → W → List (Call C) → Option (LifecyclePlanStore C) × W
  unfolding serve
  serve_all store w [] = (store, w)
  serve_all store w (call ∷ calls) = serve_all (serve store w call).0 (serve store w call).1 calls
