-- ===== src/Adapter/Types.antt =====
-- adapter.go: what an adapter hands to the normalizer and gets back from it.
use goster_io_t.Common.{ℕ, ◌-◌, ◌^◌, Bool, false, Option, none, List, [], ◌==◌}
use goster_io_t.Common.Word.{Bytes}
use goster_io_t.Common.Int.{ℤ, pos}
use goster_io_t.Common.Text.{Text, text}
use goster_io_t.Common.Assoc.{Assoc}

-- time.Time in milliseconds since 1970, as the 64 bits of a two's complement.
abbrev pub Time : Type 0
Time = ℕ

-- January 1 of year 1, the zero value.
abbrev pub zero_time : Time
zero_time = 2 ^ 64 - 62135596800000

-- t.IsZero()
abbrev pub is_zero_time : Time → Bool
is_zero_time t = t == zero_time

-- A value of type `any`; a float64 is its bits.
pub data AnyValue : Type 0 where
  float64_value : ℕ → AnyValue
  int_value : ℤ → AnyValue
  string_value : Text → AnyValue
  other_value : AnyValue

pub record Identity : Type 0 where
  pub kind : Text
  pub value : Text
  pub issuer : Text

-- Value: the pointers that may be nil.
pub record Value : Type 0 where
  pub number : Option ℕ
  pub string : Option Text
  pub bool : Option Bool
  pub bytes : Option Bytes
  pub json : Option (Assoc AnyValue)

pub record DeviceDescriptor : Type 0 where
  pub uuid : Text
  pub name : Text
  pub serial_number : Text
  pub mac_address : Text
  pub hardware_version : Text
  pub software_version : Text
  pub config_version : Text
  pub manufacturer : Text
  pub vendor : Text
  pub model : Text
  pub firmware_version : Text
  pub device_type : Text
  pub network_address : Text
  pub identities : List Identity
  pub labels : Assoc Text
  pub attributes : Assoc AnyValue

pub record MetricPoint : Type 0 where
  pub name : Text
  pub value : Value
  pub unit : Text
  pub observed_at : Time
  pub legacy_metric_type : ℕ
  pub tags : Assoc Text

pub record StatePoint : Type 0 where
  pub name : Text
  pub value : Value
  pub unit : Text
  pub observed_at : Time
  pub entity_id : Text
  pub tags : Assoc Text

pub record LogRecord : Type 0 where
  pub level : Text
  pub message : Text
  pub namespace : Text
  pub observed_at : Time
  pub fields : Assoc AnyValue

pub record CommandReceipt : Type 0 where
  pub command_id : ℤ
  pub command_uuid : Text
  pub status : Text
  pub protocol_command_code : ℕ
  pub operation : Text
  pub error_text : Text
  pub observed_at : Time
  pub raw : Bytes

pub record FrameInfo : Type 0 where
  pub magic_number : ℕ
  pub command_code : ℕ
  pub key_id : ℕ
  pub sequence : ℕ
  pub is_ack : Bool
  pub is_encrypted : Bool
  pub is_compressed : Bool
  pub payload_len : ℕ
  pub headers : Assoc Text

pub record AdapterEvent : Type 0 where
  pub event_id : Text
  pub adapter_name : Text
  pub protocol_name : Text
  pub protocol_version : Text
  pub transport : Text
  pub remote_addr : Text
  pub local_addr : Text
  pub tenant_hint : Text
  pub tenant_id : Text
  pub request_id : Text
  pub trace_id : Text
  pub correlation_id : Text
  pub identity : Identity
  pub identities : List Identity
  pub uuid : Text
  pub device : Option DeviceDescriptor
  pub kind : Text
  pub occurred_at : Time
  pub received_at : Time
  pub metrics : List MetricPoint
  pub states : List StatePoint
  pub log : Option LogRecord
  pub availability : Text
  pub receipt : Option CommandReceipt
  pub raw : Bytes
  pub raw_content_type : Text
  pub attributes : Option (Assoc AnyValue)
  pub labels : Assoc Text
  pub frame : FrameInfo

pub record AdapterCommand : Type 0 where
  pub command_id : ℤ
  pub command_uuid : Text
  pub tenant_id : Text
  pub uuid : Text
  pub operation : Text
  pub protocol_command_code : ℕ
  pub target : Identity
  pub payload : Bytes
  pub payload_content_type : Text
  pub properties : Assoc Text
  pub options : Assoc AnyValue
  pub max_attempts : ℤ
  pub labels : Assoc Text

-- The zero values of the structs, for the fields that a literal leaves out.
abbrev pub no_identity : Identity
no_identity = record { kind = text ""; value = text ""; issuer = text "" }

abbrev pub no_value : Value
no_value = record { number = none; string = none; bool = none; bytes = none; json = none }

abbrev pub no_frame : FrameInfo
no_frame = record {
  magic_number = 0;
  command_code = 0;
  key_id = 0;
  sequence = 0;
  is_ack = false;
  is_encrypted = false;
  is_compressed = false;
  payload_len = 0;
  headers = [];
}

abbrev pub no_event : AdapterEvent
no_event = record {
  event_id = text "";
  adapter_name = text "";
  protocol_name = text "";
  protocol_version = text "";
  transport = text "";
  remote_addr = text "";
  local_addr = text "";
  tenant_hint = text "";
  tenant_id = text "";
  request_id = text "";
  trace_id = text "";
  correlation_id = text "";
  identity = no_identity;
  identities = [];
  uuid = text "";
  device = none;
  kind = text "";
  occurred_at = zero_time;
  received_at = zero_time;
  metrics = [];
  states = [];
  log = none;
  availability = text "";
  receipt = none;
  raw = [];
  raw_content_type = text "";
  attributes = none;
  labels = [];
  frame = no_frame;
}

abbrev pub no_command : AdapterCommand
no_command = record {
  command_id = pos 0;
  command_uuid = text "";
  tenant_id = text "";
  uuid = text "";
  operation = text "";
  protocol_command_code = 0;
  target = no_identity;
  payload = [];
  payload_content_type = text "";
  properties = [];
  options = [];
  max_attempts = pos 0;
  labels = [];
}

abbrev pub no_device : DeviceDescriptor
no_device = record {
  uuid = text "";
  name = text "";
  serial_number = text "";
  mac_address = text "";
  hardware_version = text "";
  software_version = text "";
  config_version = text "";
  manufacturer = text "";
  vendor = text "";
  model = text "";
  firmware_version = text "";
  device_type = text "";
  network_address = text "";
  identities = [];
  labels = [];
  attributes = [];
}
