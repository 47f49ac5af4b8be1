-- ===== src/Db.antt =====
-- The tables that the services read and write, row by row (the columns "updatedAt" and the like,
-- which no modelled code reads, are left out). Ids and texts that are only compared are
-- numbers; a moment is a number of milliseconds; a nullable column is an `Option`.
-- "quantity" columns are DECIMAL(10,3) and count thousandths, prices and amounts are DECIMAL(10,2)
-- and count hundredths.
use remote_order_server.Common.{ℕ, Bool, Option, List, [], Text, codes}
use remote_order_server.Common.Int.{ℤ}

pub data Status : Type 0 where
  draft saved posted applied : Status

-- "Order".status
abbrev pub OrderStatus : Type 0
OrderStatus = Text

abbrev pub accepted : OrderStatus
accepted = codes "ACCEPTED"

abbrev pub completed : OrderStatus
completed = codes "COMPLETED"

-- "ProductBatch"
pub record ProductBatch : Type 0 where
  pub id : ℕ
  pub product_id : ℕ
  pub quantity_total : ℤ
  pub quantity_left : ℤ
  pub enter_price : ℤ
  pub goods_receipt_id : Option ℕ
  pub buyer_return_id : Option ℕ
  pub created_at : ℕ

-- One element of the list that `deductStock` returns.
pub record Deduction : Type 0 where
  pub batch_id : ℕ
  pub quantity : ℤ
  pub enter_price : ℤ

-- "RealizationItemBatch" and "SupplierReturnItemBatch": what an item took from a batch.
pub record ItemBatch : Type 0 where
  pub item_id : ℕ
  pub deduction : Deduction

-- "BuyerReturnItemBatch"
pub record ReturnedBatch : Type 0 where
  pub item_id : ℕ
  pub batch_id : ℕ
  pub quantity : ℤ

-- "GoodsReceiptItem", "BuyerReturnItem", "SupplierReturnItem", "RealizationItem"
pub record Item : Type 0 where
  pub id : ℕ
  pub doc_id : ℕ
  pub product_id : ℕ
  pub quantity : ℤ
  pub price : ℤ
  pub total : ℤ
  pub sort_order : ℕ

pub record GoodsReceipt : Type 0 where
  pub id : ℕ
  pub number : Text
  pub date : ℕ
  pub warehouse_id : Option ℕ
  pub provider_id : Option ℕ
  pub comment : Option Text
  pub status : Status
  pub paid_amount : ℤ
  pub is_deleted : Bool
  pub created_at : ℕ

-- "BuyerReturn", with the buyer as the party, and "SupplierReturn", with the supplier.
pub record ReturnDoc : Type 0 where
  pub id : ℕ
  pub number : Text
  pub date : ℕ
  pub party_id : Option ℕ
  pub warehouse_id : Option ℕ
  pub comment : Option Text
  pub status : Status
  pub total_amount : ℤ
  pub profit : ℤ
  pub created_at : ℕ

pub record Realization : Type 0 where
  pub id : ℕ
  pub number : Text
  pub date : ℕ
  pub counterparty_id : Option ℕ
  pub warehouse_id : Option ℕ
  pub status : Status
  pub amount : ℤ
  pub paid_amount : ℤ
  pub profit : ℤ
  pub comment : Option Text
  pub order_id : Option ℕ
  pub sales_type : Text
  pub created_by : Option ℕ
  pub is_deleted : Bool
  pub created_at : ℕ

-- An element of the JSON column "Order".items, whose fields the clients name in two ways: each field
-- is there with a value, or is missing.
pub record JsonItem : Type 0 where
  pub id : Option ℕ
  pub product_id : Option ℕ
  pub quantity : Option ℤ
  pub count : Option ℤ
  pub price : Option ℤ
  pub sell_price : Option ℤ

pub record Order : Type 0 where
  pub id : ℕ
  pub user_id : Option ℕ
  pub counterparty_id : Option ℕ
  pub warehouse_id : Option ℕ
  pub status : OrderStatus
  pub total : ℤ
  pub items : List JsonItem
  pub comment : Option Text
  pub doc_number : Option Text
  pub is_deleted : Bool
  pub created_at : ℕ

-- "OrderItem"
pub record OrderItem : Type 0 where
  pub id : ℕ
  pub order_id : ℕ
  pub product_id : ℕ
  pub quantity : ℤ
  pub sell_price : ℤ
  pub sort_order : Option ℕ

-- "Counterparty"
pub record Counterparty : Type 0 where
  pub id : ℕ
  pub name : Text
  pub address : Option Text
  pub phone : Option Text
  pub contact_person : Option Text
  pub is_buyer : Bool
  pub is_seller : Bool
  pub price_type_id : Option ℕ
  pub group_id : Option ℕ
  pub warehouse_id : Option ℕ
  pub default_sales_type : Option Text
  pub organization_id : Option ℕ
  pub is_deleted : Bool

-- "CounterpartyGroup"
pub record Group : Type 0 where
  pub id : ℕ
  pub name : Text
  pub parent_id : Option ℕ
  pub is_deleted : Bool

-- "Warehouse"
pub record Warehouse : Type 0 where
  pub id : ℕ
  pub created_at : ℕ

-- "SyncLog"
pub record SyncEntry : Type 0 where
  pub user_id : ℕ
  pub action : Text
  pub record_id : ℕ
  pub created_at : ℕ

-- "Product"; the JSON object `prices` is a list of slugs with their prices.
pub record Product : Type 0 where
  pub id : ℕ
  pub name : Text
  pub unit : Text
  pub category : Option Text
  pub prices : List (Text × ℤ)
  pub photos : List Text
  pub in_box : Option Text
  pub barcode : Option Text
  pub packing : Option Text
  pub tara : Option Text
  pub deleted : Bool

pub record PriceType : Type 0 where
  pub id : ℕ
  pub slug : Text

pub record PriceDocument : Type 0 where
  pub id : ℕ
  pub date : ℕ
  pub target_price_type_id : ℕ
  pub status : Status
  pub comment : Option Text
  pub input_method : Text
  pub source_price_type_id : Option ℕ
  pub markup_percentage : Option ℤ
  pub rounding_method : Option Text
  pub rounding_value : Option ℤ
  pub created_at : ℕ

pub record PriceDocumentItem : Type 0 where
  pub document_id : ℕ
  pub product_id : ℕ
  pub price : ℤ

-- "PriceJournal"
pub record PriceEntry : Type 0 where
  pub product_id : ℕ
  pub price_type_id : Option ℕ
  pub old_price : ℤ
  pub new_price : ℤ
  pub effective_date : ℕ
  pub created_by : Option ℕ
  pub reason : Option Text
  pub created_at : ℕ

pub data CashType : Type 0 where
  income outcome other_type : CashType

-- "CashTransaction"
pub record CashTransaction : Type 0 where
  pub id : ℕ
  pub number : Text
  pub date : ℕ
  pub cash_type : CashType
  pub cashbox_id : ℕ
  pub amount : ℤ
  pub category_id : Option ℕ
  pub counterparty_id : Option ℕ
  pub comment : Option Text
  pub created_by : Option ℕ
  pub is_deleted : Bool

pub data DocumentType : Type 0 where
  realization goods_receipt : DocumentType

-- "PaymentAllocation"
pub record Allocation : Type 0 where
  pub cash_transaction_id : ℕ
  pub document_id : ℕ
  pub document_type : DocumentType
  pub amount : ℤ

-- "DocumentLock", the row 'document_operations'.
pub record Lock : Type 0 where
  pub is_locked : Bool
  pub locked_by : Option ℕ
  pub reason : Option Text

pub record Db : Type 0 where
  pub batches : List ProductBatch
  pub goods_receipts : List GoodsReceipt
  pub goods_receipt_items : List Item
  pub buyer_returns : List ReturnDoc
  pub buyer_return_items : List Item
  pub buyer_return_item_batches : List ReturnedBatch
  pub supplier_returns : List ReturnDoc
  pub supplier_return_items : List Item
  pub supplier_return_item_batches : List ItemBatch
  pub realizations : List Realization
  pub realization_items : List Item
  pub realization_item_batches : List ItemBatch
  pub orders : List Order
  pub order_items : List OrderItem
  pub counterparties : List Counterparty
  pub counterparty_groups : List Group
  pub warehouses : List Warehouse
  pub sync_log : List SyncEntry
  pub products : List Product
  pub price_types : List PriceType
  pub price_documents : List PriceDocument
  pub price_document_items : List PriceDocumentItem
  pub price_journal : List PriceEntry
  pub cashboxes : List ℕ
  pub cash_transactions : List CashTransaction
  pub allocations : List Allocation
  pub lock : Option Lock
  -- how many ids the database has generated
  pub generated : ℕ

-- What a call gets from its surroundings: the clock during the call, the ids that the database
-- generates, the calendar, and the rounding of an amount of hundred-thousandths that is stored in a column
-- DECIMAL(10,2).
pub record Env : Type 0 where
  pub now : ℕ
  pub uuid : ℕ → ℕ
  pub round_amount : ℤ → ℤ
  -- getDate(), getMonth() + 1 and getFullYear() of a moment, in the server's time zone
  pub day_of : ℕ → ℕ
  pub month_of : ℕ → ℕ
  pub year_of : ℕ → ℕ

abbrev pub empty : Db
empty = record {
  batches = [];
  goods_receipts = [];
  goods_receipt_items = [];
  buyer_returns = [];
  buyer_return_items = [];
  buyer_return_item_batches = [];
  supplier_returns = [];
  supplier_return_items = [];
  supplier_return_item_batches = [];
  realizations = [];
  realization_items = [];
  realization_item_batches = [];
  orders = [];
  order_items = [];
  counterparties = [];
  counterparty_groups = [];
  warehouses = [];
  sync_log = [];
  products = [];
  price_types = [];
  price_documents = [];
  price_document_items = [];
  price_journal = [];
  cashboxes = [];
  cash_transactions = [];
  allocations = [];
  lock = Option.none;
  generated = 0;
}
