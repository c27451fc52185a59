-- ===== src/Oms/Model.antt =====
-- src/oms/models.py and src/models/shared_models.py: the tables that the order service reads and writes.
-- Times are numbers, amounts are integers of ten-thousandths, ids stand for UUIDs.
use oms_wms_tms.Prelude.{ℕ, suc, String, Bool, Option, List, Txn, ok, leb}
use oms_wms_tms.Prelude.Int.{ℤ}
use oms_wms_tms.Outbox.{OutboxEvent, Plain}

pub data OrderStatus : Type 0 where
  pending confirmed processing picking completed cancelled failed : OrderStatus

pub data OrderPriority : Type 0 where
  low medium high urgent : OrderPriority

pub record Customer : Type 0 where
  pub id : ℕ
  pub code : String
  pub name : String

pub record Sku : Type 0 where
  pub id : ℕ
  pub sku : String
  pub name : String

pub record Order : Type 0 where
  pub id : ℕ
  pub order_no : String
  pub status : OrderStatus
  pub customer_id : ℕ
  pub warehouse_id : Option ℕ
  pub total_amount : ℤ
  pub priority : OrderPriority
  pub notes : String
  pub is_deleted : Bool
  pub deleted_at : Option ℕ
  pub created_at : ℕ
  pub updated_at : ℕ

pub record OrderItem : Type 0 where
  pub id : ℕ
  pub order_id : ℕ
  pub sku_id : Option ℕ
  pub gtin : String
  pub name : String
  pub quantity : ℤ
  pub unit_price : ℤ
  pub is_deleted : Bool
  pub deleted_at : Option ℕ
  pub created_at : ℕ

-- The class has no `SoftDeleteMixin`, so the table has no column for a deletion.
pub record OrderStatusLog : Type 0 where
  pub id : ℕ
  pub order_id : ℕ
  pub from_status : String
  pub to_status : String
  pub operator_id : Option ℕ
  pub remark : String
  pub created_at : ℕ

pub record MergeGroup : Type 0 where
  pub id : ℕ
  pub code : String
  pub warehouse_id : Option ℕ
  pub status : String
  pub total_items : ℕ
  pub total_amount : ℤ
  pub notes : String

pub record SplitChildOrder : Type 0 where
  pub id : ℕ
  pub parent_order_id : Option ℕ
  pub child_order_id : ℕ
  pub merge_group_id : Option ℕ
  pub split_reason : String
  pub is_deleted : Bool

-- What `update_order_status` hands to the notification service and posts to the webhooks after its commit; a
-- failed delivery is caught there.
pub data Signal : Type 0 where
  notify_order_status_change : ℕ → String → String → Signal
  webhook_status_changed : ℕ → String → String → Signal
  webhook_order_cancelled webhook_order_created : ℕ → String → Signal

-- `events` is the list that the column's text gives, none where it is no JSON; JSON that is no list is left out.
pub record WebhookTarget : Type 0 where
  pub id : ℕ
  pub is_active : Bool
  pub events : Option (List String)

-- What the delivery over HTTP writes into the row later is left out.
pub record WebhookDeliveryLog : Type 0 where
  pub target_id : ℕ
  pub event : String
  pub payload : List (String × Plain)

pub record Db : Type 0 where
  pub webhook_targets : List WebhookTarget
  pub webhook_logs : List WebhookDeliveryLog
  pub customers : List Customer
  pub skus : List Sku
  pub orders : List Order
  pub items : List OrderItem
  pub logs : List OrderStatusLog
  pub merge_groups : List MergeGroup
  pub split_child_orders : List SplitChildOrder
  pub events : List OutboxEvent
  pub signals : List Signal
  pub next_uuid : ℕ

-- `uuid.uuid4()`: a value that no earlier call gave.
abbrev pub uuid4 : Txn Db ℕ
uuid4 db = ok (db.next_uuid, record db { next_uuid = suc db.next_uuid })

-- The tests of `ORDER BY`.
abbrev pub item_earlier : OrderItem → OrderItem → Bool
item_earlier a b = leb a.created_at b.created_at

abbrev pub log_earlier : OrderStatusLog → OrderStatusLog → Bool
log_earlier a b = leb a.created_at b.created_at

abbrev pub order_key : Order → ℕ
order_key o = o.id
