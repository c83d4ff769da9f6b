-- ===== src/Settlement/Host.antt =====
-- The artifacts of the settlement protocol in kry_settlement.py, and what the module takes from its host.
use kry.Base.{◌≡◌, Bool, false}
use kry.Base.Int.{ℤ}
use kry.Base.Texts.{Text, has_code}
use kry.Double.{Double}
use kry.Python.{Value, float}

pub record SettlementOffer : Type 0 where
  pub offer_id : Text
  pub from_party : Text
  pub to_party : Text
  pub kry_amount : Value
  pub routing_tokens : Value
  pub ts : Value

pub record RoutingGrant : Type 0 where
  pub grant_id : Text
  pub offer_id : Text
  pub granted_by : Text
  pub routing_tokens : ℤ
  pub accepted_kry : Value
  pub ts : Value
  pub attested_balance : Double

pub data Basis : Type 0 where
  measured self_asserted : Basis

pub record SettlementReceipt : Type 0 where
  pub receipt_id : Text
  pub offer : SettlementOffer
  pub grant : RoutingGrant
  pub a_balance_before : Double
  pub a_balance_after : Double
  pub b_received_before : Double
  pub b_received_after : Double
  pub conserved : Bool
  pub conservation_basis : Basis
  pub receipt_hash : Text

pub record Host : Type 0 where
  -- `hashlib.sha256(s.encode()).hexdigest()`
  pub sha256 : Text → Text
  -- what a value becomes in an f-string
  pub value_text : Value → Text
  -- `json.dumps(asdict(receipt), sort_keys=True)`, of a receipt whose numbers are finite
  pub receipt_text : SettlementReceipt → Text

abbrev pub float_text : Host → Double → Text
float_text h d = h.value_text (float d)

-- What the tamper evidence relies on: no two inputs share a digest, a digest is of hexadecimal digits and
-- has no colon, and the text of a float names the float and has no colon.
pub record IsCollisionFree (h : Host) : Type 0 where
  pub sha256_injective : (s t : Text) → h.sha256 s ≡ h.sha256 t → s ≡ t
  pub sha256_colon : (s : Text) → has_code b':' (h.sha256 s) ≡ false
  pub float_text_injective : (a b : Double) → float_text h a ≡ float_text h b → a ≡ b
  pub float_text_colon : (a : Double) → has_code b':' (float_text h a) ≡ false
