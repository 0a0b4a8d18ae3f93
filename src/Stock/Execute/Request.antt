-- ===== src/Stock/Execute/Request.antt =====
-- What `prepareStockAdjustment` of internal/tools/stock_adjustment_tools.go checks and reads.
use inventree_mcp.Prelude.{
  String, none, List, Bool, true, false, ◌==◌, ◌≡◌, inl, inr, arith, refl, ap, ◌∙◌, Bool-cases,
  Result-cases, ℤ, is_positive, ok, err, ok_unique, err_unique,
}
use inventree_mcp.Text.{trim_space}
use inventree_mcp.Stock.Item.{StockItem, status_ok}
use inventree_mcp.Stock.Execute.{
  Mutation, StockClient, Reply, prepare_stock_adjustment, check_stock_request,
}
use inventree_mcp.Stock.Execute.Authority.{recording}

-- The reply has no error, and its status is ok.
pub record Succeeds {F : Type 0} (reply : Reply F) : Type 0 where
  pub unfailed : reply.failed ≡ none
  pub fine : reply.out.status ≡ status_ok

module _ {F W : Type 0} (client : StockClient F W) (dry_run : Bool) (id : ℤ) (reason : String) where
  pub prepare_keeps :
      (w : W) (log : List Mutation)
      → (prepare_stock_adjustment (recording client) dry_run id reason (w, log)).1.1 ≡ log
  unfolding prepare_stock_adjustment
  prepare_keeps w log = elim (Result-cases (check_stock_request {F = F} dry_run id reason)) [
    | inr (e, refused) ↦ rw (prepare_stock_adjustment, refused) refl
    | inl (x, passed) ↦ rw (prepare_stock_adjustment, passed) refl
  ]

  request_checked :
      (x : Unit {0})
      → check_stock_request {F = F} dry_run id reason ≡ ok x
      → (is_positive id ≡ true) × ((trim_space reason == "") ≡ false)
  request_checked x h = ground (arith, h)

  pub prepare_reads :
      (w : W) (item : StockItem F)
      → (prepare_stock_adjustment client dry_run id reason w).0 ≡ ok item
      → (is_positive id ≡ true)
        × ((trim_space reason == "") ≡ false)
        × ((client.get_stock_item id w).0 ≡ ok item)
  unfolding prepare_stock_adjustment
  prepare_reads w item h = elim (Result-cases (check_stock_request {F = F} dry_run id reason)) [
    | inr (e, refused) ↦ absurd (cc (rw (prepare_stock_adjustment, refused) at h))
    | inl (x, passed) ↦ elim (Result-cases (client.get_stock_item id w).0) [
      | inr (e, unread) ↦ absurd (cc (rw (prepare_stock_adjustment, passed, unread) at h))
      | inl (a, got) ↦
          let (addressed, explained) = request_checked x passed in
          let same = rw (prepare_stock_adjustment, passed, got) at h in
          (addressed, explained, got ∙ ap ok (ok_unique {E = Reply F} (ok a) a item refl same))
    ]
  ]

  -- the world that a read leaves is that of the client's answer
  pub prepare_reads_world :
      (w : W) (item : StockItem F)
      → (prepare_stock_adjustment client dry_run id reason w).0 ≡ ok item
      → (prepare_stock_adjustment client dry_run id reason w).1 ≡ (client.get_stock_item id w).1
  unfolding prepare_stock_adjustment
  prepare_reads_world w item h =
      elim (Result-cases (check_stock_request {F = F} dry_run id reason)) [
        | inr (e, refused) ↦ absurd (cc (rw (prepare_stock_adjustment, refused) at h))
        | inl (x, passed) ↦ rw (prepare_stock_adjustment, passed) refl
      ]

  check_refuses :
      (reply : Reply F) → check_stock_request dry_run id reason ≡ err reply → ¬ Succeeds reply
  check_refuses reply h good = elim (Bool-cases (is_positive id)) [
    | inr nowhere ↦ absurd (cc (good.fine, rw (check_stock_request, nowhere) at h))
    | inl addressed ↦ elim (Bool-cases (trim_space reason == "")) [
      | inl blank ↦ absurd (cc (good.fine, rw (check_stock_request, addressed, blank) at h))
      | inr explained ↦ absurd (cc (rw (check_stock_request, addressed, explained) at h))
    ]
  ]

  pub prepare_refuses :
      (w : W) (reply : Reply F)
      → (prepare_stock_adjustment client dry_run id reason w).0 ≡ err reply
      → ¬ Succeeds reply
  unfolding prepare_stock_adjustment
  prepare_refuses w reply h good =
      elim (Result-cases (check_stock_request {F = F} dry_run id reason)) [
        | inr (e, refused) ↦
            let same = rw (prepare_stock_adjustment, refused) at h in
            check_refuses reply
              (refused ∙ ap err (err_unique {A = StockItem F} (err e) e reply refl same)) good
        | inl (x, passed) ↦ elim (Result-cases (client.get_stock_item id w).0) [
          | inr (e, unread) ↦
              absurd (cc (good.unfailed, rw (prepare_stock_adjustment, passed, unread) at h))
          | inl (a, got) ↦ absurd (cc (rw (prepare_stock_adjustment, passed, got) at h))
        ]
      ]
