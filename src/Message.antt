-- ===== src/Message.antt =====
-- src/Message.hpp and src/Message.cpp: the message types, their labels and the two kinds of message.
pub mod Weights
use Prim.Native.String.{String}
use metric_bench.Prelude.{ℕ, List, [], ◌∷◌, Option, get_elem?}

-- `enum MessageType`, without the end marker `messageEND`.
pub data MessageType : Type 0 where
  insert delete insert_metric delete_device select_k1 select_k2 select_k3 : MessageType

-- The number that C++ gives to each constant.
abbrev pub index : MessageType → ℕ
index insert = 0
index delete = 1
index insert_metric = 2
index delete_device = 3
index select_k1 = 4
index select_k2 = 5
index select_k3 = 6

abbrev pub message_end : ℕ
message_end = 7

-- `sizeof(MessageType)`: the size in bytes of an enumeration whose underlying type is `int`.
abbrev pub sizeof_message_type : ℕ
sizeof_message_type = 4

-- `messageTypeLabel`
abbrev pub message_type_label : List String
message_type_label =
    "Insert" ∷ "Delete" ∷ "InsertMetric" ∷ "DeleteDevice" ∷ "Select_K1" ∷ "Select_K2" ∷ "Select_K3"
    ∷ []

-- `class Message`
pub record Message : Type 0 where
  pub op : MessageType
  pub ts : ℕ
  pub device_id : ℕ
  pub table_id : ℕ

-- `class StatMessage`
pub record StatMessage : Type 0 where
  pub op : MessageType
  pub time_us : ℕ
  pub cnt : ℕ

-- `Message::getMessageTypeLabel`; `none` is a read past the end of the table.
unfoldable pub get_message_type_label : Message → Option String
get_message_type_label m = get_elem? message_type_label (index m.op)
