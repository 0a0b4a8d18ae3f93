-- ===== src/Stock/Samples.antt =====
-- A small InvenTree server and requests to it, for the tests of the stock tools.
use inventree_mcp.Prelude.{
  ℕ, ◌+◌, ◌-◌, String, Option, none, some, List, [], ◌∷◌, true, false, ◌==◌, eqb, ltb,
  if◌then◌else◌, pos, Result, ok, err,
}
use inventree_mcp.Stock.Plans.{Planned}
use inventree_mcp.Stock.Plans.History.{PlanCall, planning}
use inventree_mcp.Stock.Item.{StockItem, StockAdjustmentPlan}
use inventree_mcp.Stock.Decimal.{Floats}
use inventree_mcp.Stock.Execute.{Failure, api, Mutation, StockClient, Confirming, Surroundings}
use inventree_mcp.Stock.Depletion.{DepleteStockItemInput, depletion_of}

abbrev pub distance : ℕ → ℕ → ℕ
distance a b = (a - b) + (b - a)

abbrev pub written : ℕ → String
written n =
    if eqb n 0
    then "0.00000"
    else if eqb n 2
    then "2.00000"
    else if eqb n 3
    then "3.00000"
    else "5.00000"

abbrev pub parsed : String → Option ℕ
parsed s =
    if s == "0.00000"
    then some 0
    else if s == "2.00000"
    then some 2
    else if s == "3.00000"
    then some 3
    else some 5

instance abbrev pub numbers : Floats ℕ
numbers = record {
  nought = 0;
  tolerance = 1;
  is_nan = λ _. false;
  is_inf = λ _. false;
  less = ltb;
  same = eqb;
  add = λ a b. a + b;
  sub = distance;
  abs = λ a. a;
  copysign = λ a _. a;
  format_float = written;
  parse_float = parsed;
}

instance abbrev pub plans : Planned (StockAdjustmentPlan ℕ)
plans = record {
  hash = λ plan. ok plan.reason;
  action = λ plan. plan.action;
  stock_item_id = λ plan. plan.before.stock_item_id;
}

abbrev pub shelf : ℕ → StockItem ℕ
shelf q = record {
  pk = pos 7;
  part = pos 1;
  location = none;
  quantity = q;
  serial = none;
  batch = none;
  expiry_date = none;
  packaging = none;
  link = "";
  status = pos 10;
  status_text = none;
  status_custom_key = none;
  delete_on_deplete = true;
  in_stock = true;
  is_building = false;
  owner = none;
  supplier_part = none;
  build = none;
  consumed_by = none;
  customer = none;
  sales_order = none;
  belongs_to = none;
  parent = none;
  allocated = some 0;
  installed_items = some (pos 0);
  child_items = some (pos 0);
  tracking_items = none;
  purchase_price = none;
  purchase_price_currency = "";
  creation_date = none;
  stocktake_date = none;
  updated = none;
  purchase_order = none;
  purchase_order_reference = none;
}

-- A server that keeps one item, as its quantity; a removal deletes it, an addition adds two.
abbrev pub found : Option ℕ → Result Failure (StockItem ℕ)
found none = err (api 404 true)
found (some q) = ok (shelf q)

abbrev pub changed : Mutation → Option ℕ → Option ℕ
changed (Mutation.add_stock pk q notes) (some n) = some (n + 2)
changed (Mutation.count_stock pk q notes) (some n) = some 2
changed (Mutation.remove_stock pk q notes) w = none
changed m w = w

abbrev pub server : StockClient ℕ (Option ℕ)
server = record { get_stock_item = λ id w. (found w, w); mutate = λ m w. (none, changed m w) }

abbrev pub same_url : String → String
same_url s = s

abbrev pub same_name : String → String
same_name s = s

abbrev pub surroundings : Surroundings String
surroundings = record { ctx = "alice"; now = 5; draw = ok "t2" }

abbrev pub go_ahead : Confirming
go_ahead = record { dry_run = false; confirm = true; plan_hash = "t1" }

abbrev pub reviewed_depletion : List (PlanCall (StockAdjustmentPlan ℕ) String)
reviewed_depletion = planning "alice" 3 (ok "t1") (depletion_of (shelf 3) "lost") ∷ []

abbrev pub deplete : DepleteStockItemInput
deplete = record { confirming = go_ahead; stock_item_id = pos 7; reason = "lost" }
