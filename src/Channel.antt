-- ===== src/Channel.antt =====
-- net/src/channel.rs: the messages between two connected peers, and the exchange of interpretations.
-- The blob of a consent, which holds the data of a birth, is a parameter.
use zodia.Prelude.{ℕ, Bool, Option, none, some, List, Bytes, if◌then◌else◌, not}

pub record InterpEntry : Type 0 where
  pub interp_key : Bytes
  pub body : Bytes
  pub author_pk : ℕ
  -- the vector as it came, of any length
  pub author_sig : Bytes

pub data PeerStatus : Type 0 where
  active away : PeerStatus

pub data ChannelMsg (B : Type 0) : Type 0 where
  consent_handshake : (blob : B) → ChannelMsg B
  interp_share : (entries : List InterpEntry) → ChannelMsg B
  status_update : (status : PeerStatus) → ChannelMsg B
  call_offer : (session_id : ℕ) → ChannelMsg B
  call_accept : (session_id : ℕ) → ChannelMsg B
  call_reject : (session_id : ℕ) → ChannelMsg B
  call_hangup : (session_id : ℕ) → ChannelMsg B
  chat_msg : (text : Bytes) → ChannelMsg B
  typing_indicator : (active : Bool) → ChannelMsg B
  chat_read : ChannelMsg B
  relay_msg : (dest : ℕ) (payload : Bytes) → ChannelMsg B

-- ciborium at the type of messages.
pub record Cbor (B : Type 0) : Type 0 where
  pub cbor_encode : ChannelMsg B → Bytes
  pub from_reader : Bytes → Option (ChannelMsg B)

-- What is encoded is read back.
abbrev pub IsCbor : {B : Type 0} → Cbor B → Type 0
IsCbor {B} c =
    (msg : ChannelMsg B) → zodia.Prelude.◌≡◌ (c.from_reader (c.cbor_encode msg)) (some msg)

-- What `send_raw` and `recv_raw` come to: whether the frame went out, and the frame that came in.
pub record Link : Type 0 where
  pub went : Bool
  pub came : Option Bytes

module _ {B : Type 0} (c : Cbor B) where
  -- The frame of the own entries.
  abbrev pub share : List InterpEntry → Bytes
  share ours = c.cbor_encode (ChannelMsg.interp_share ours)

  -- The entries of a message, where it is of the expected kind.
  abbrev pub shared : Option (ChannelMsg B) → Option (List InterpEntry)
  shared none = none
  shared (some (consent_handshake blob)) = none
  shared (some (interp_share entries)) = some entries
  shared (some (status_update status)) = none
  shared (some (call_offer s)) = none
  shared (some (call_accept s)) = none
  shared (some (call_reject s)) = none
  shared (some (call_hangup s)) = none
  shared (some (chat_msg text)) = none
  shared (some (typing_indicator a)) = none
  shared (some chat_read) = none
  shared (some (relay_msg dest payload)) = none

  abbrev decoded : Option Bytes → Option (List InterpEntry)
  decoded none = none
  decoded (some bytes) = shared (c.from_reader bytes)

  -- The answer of `exchange_interps`, its errors as one.
  unfoldable pub exchange_interps : Link → Option (List InterpEntry)
  exchange_interps link = if not link.went then none else decoded link.came
