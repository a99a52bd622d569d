-- ===== src/Config.antt =====
-- internal/config/config.go: the settings, their defaults, and the check of a loaded file. Reading
-- the file is a parameter, and so are the HuJSON and JSON libraries.
pub mod Checks
mod Tests
use ws_chat.Base.{
  ℕ, ◌*◌, Bool, true, false, Option, none, some, List, [], ◌∷◌, arith, ltb, if◌then◌else◌, Text,
  bytes, ◌==◌, text_keyed,
}

-- Go's `int`.
pub data ℤ : Type 0 where
  pos negsuc : ℕ → ℤ

-- `z < n`.
abbrev pub less_int : ℤ → ℕ → Bool
less_int (pos m) n = ltb m n
less_int (negsuc m) n = true

-- How many things `limit` lets there be, which is none if it is negative.
abbrev pub bound : ℤ → ℕ
bound (pos m) = m
bound (negsuc m) = 0

pub record Config : Type 0 where
  pub addr : Text
  pub allowed_origins : List Text
  pub capacity : ℤ
  pub write_batch : ℤ
  pub max_frame_size : ℤ
  pub max_message : ℤ
  pub default_channel : Text
  pub max_channels : ℤ
  pub max_channels_per_conn : ℤ
  pub backlog : ℤ
  pub max_diacritics : ℤ
  pub priv_buffer : ℤ
  pub write_timeout : ℤ
  pub idle_timeout : ℤ
  pub debug_addr : Text
  pub log_level : Text

abbrev second : ℕ
second = 1000000000

unfoldable pub default_config : Config
default_config = record {
  addr = bytes ":8080";
  allowed_origins = [];
  capacity = pos 16384;
  write_batch = pos 16;
  max_frame_size = pos 32768;
  max_message = pos 512;
  default_channel = bytes "main";
  max_channels = pos 1024;
  max_channels_per_conn = pos 32;
  backlog = pos 50;
  max_diacritics = pos 5;
  priv_buffer = pos 32;
  write_timeout = pos (10 * second);
  idle_timeout = pos (90 * second);
  debug_addr = bytes "127.0.0.1:6060";
  log_level = bytes "info";
}

-- The field that `check` complains of, in the order of its cases.
pub first_bad : List (Bool × Text) → Option Text
first_bad [] = none
first_bad ((bad, field) ∷ cases) = let rest = first_bad cases in if bad then some field else rest

pub check : Config → Option Text
check c = first_bad (
    (c.addr == [], bytes "Addr")
    ∷ (less_int c.capacity 1, bytes "Capacity")
    ∷ (less_int c.write_batch 1, bytes "WriteBatch")
    ∷ (less_int c.max_frame_size 1, bytes "MaxFrameSize")
    ∷ (less_int c.max_message 1, bytes "MaxMessage")
    ∷ (less_int c.backlog 0, bytes "Backlog")
    ∷ (c.default_channel == [], bytes "DefaultChannel")
    ∷ (less_int c.max_channels 1, bytes "MaxChannels")
    ∷ (less_int c.max_channels_per_conn 1, bytes "MaxChannelsPerConn")
    ∷ (less_int c.priv_buffer 1, bytes "PrivBuffer")
    ∷ (less_int c.write_timeout 1, bytes "WriteTimeout")
    ∷ (less_int c.idle_timeout 1, bytes "IdleTimeout")
    ∷ [])

-- What `os.ReadFile` may find.
pub data File : Type 0 where
  missing unreadable : File
  contents : Text → File

-- What `Load` returns: a configuration, or an error.
pub data Loaded : Type 0 where
  loaded : Config → Loaded
  failed : Loaded

abbrev pub checked : Config → Option Text → Loaded
checked c none = loaded c
checked c (some field) = failed

-- `standardize` is `hujson.Standardize`, `unmarshal` is `json.Unmarshal` into the defaults.
module _ (standardize : Text → Option Text) (unmarshal : Text → Config → Option Config) where
  pub load_text : Option Text → Loaded
  load_text none = failed
  load_text (some std) = elim (unmarshal std default_config) [
    | none ↦ failed
    | some c ↦ checked c (check c)
  ]

  pub load : File → Loaded
  load missing = loaded default_config
  load unreadable = failed
  load (contents raw) = load_text (standardize raw)
