-- ===== src/Coordinator/Mode.antt =====
-- The start of yugo/coordinator.py: `resolve_mode`, `load_heartbeat_ms`, `load_nats_config` and
-- `is_unreliable_filesystem`. An environment variable is an optional text; `lower` stands for
-- `str.lower` and `to_int` for `int`, which raises on `none`.
use yugo.Base.{
  ℕ, Text, codes, text_eq, strip, Bool, true, false, ◌||◌, Option, none, some, List, [], ◌∷◌,
  if◌then◌else◌, contains_text, starts_with_any,
}
use yugo.Base.Int.{ℤ, pos}

abbrev pub is_blank : Text → Bool
is_blank [] = true
is_blank (c ∷ t) = false

-- `env.get(name) or ""`
abbrev pub or_empty : Option Text → Text
or_empty none = []
or_empty (some t) = t

abbrev pub unreliable_filesystems : List Text
unreliable_filesystems =
    codes "nfs"
    ∷ codes "nfs4"
    ∷ codes "smb"
    ∷ codes "smb2"
    ∷ codes "cifs"
    ∷ codes "overlay"
    ∷ codes "overlayfs"
    ∷ codes "fuse"
    ∷ codes "fuseblk"
    ∷ []

abbrev pub unreliable_prefixes : List Text
unreliable_prefixes = codes "fuse" ∷ codes "nfs" ∷ codes "smb" ∷ codes "cifs" ∷ codes "overlay" ∷ []

unfoldable pub is_unreliable_filesystem : (Text → Text) → Option Text → Bool
is_unreliable_filesystem lower none = true
is_unreliable_filesystem lower (some name) =
    contains_text unreliable_filesystems (lower (strip name))
    || starts_with_any unreliable_prefixes (lower (strip name))

pub data Mode : Type 0 where
  bot coordinator : Mode

-- `none` is the CoordinatorLockError.
unfoldable pub resolve_mode : (Text → Text) → Option Text → Option Mode
resolve_mode lower raw =
    if is_blank (lower (strip (or_empty raw)))
    then some bot
    else if text_eq (lower (strip (or_empty raw))) (codes "bot")
    then some bot
    else if text_eq (lower (strip (or_empty raw))) (codes "coordinator")
    then some coordinator
    else none

abbrev pub default_heartbeat_ms : Text
default_heartbeat_ms = codes "5000"

-- `env.get(name) or default`
abbrev or_default : Text → Text
or_default [] = default_heartbeat_ms
or_default (c ∷ t) = c ∷ t

abbrev positive : Option ℤ → Option ℕ
positive (some (pos (ℕ.suc n))) = some (ℕ.suc n)
positive _ = none

-- `none` is the CoordinatorNatsError.
unfoldable pub load_heartbeat_ms : (Text → Option ℤ) → Option Text → Option ℕ
load_heartbeat_ms to_int raw = positive (to_int (strip (or_default (or_empty raw))))

pub data ConfigError : Type 0 where
  no_url wrong_user no_token_file unreadable_token empty_token : ConfigError

pub data NatsConfig : Type 0 where
  nats_config : Text → Text → NatsConfig  -- url and password; the user is fixed
  refused : ConfigError → NatsConfig

abbrev pub coordinator_nats_user : Text
coordinator_nats_user = codes "coordinator"

-- `read` is `Path(...).read_text`, `none` its OSError.
unfoldable pub load_nats_config :
    (Text → Option Text) → Option Text → Option Text → Option Text → NatsConfig
load_nats_config read url user token_file =
    if is_blank (strip (or_empty url))
    then refused no_url
    else if text_eq (strip (or_empty user)) coordinator_nats_user
    then (if is_blank (strip (or_empty token_file))
        then refused no_token_file
        else elim (read (strip (or_empty token_file))) [
          | none ↦ refused unreadable_token
          | some t ↦
              if is_blank (strip t)
              then refused empty_token
              else nats_config (strip (or_empty url)) (strip t)
        ])
    else refused wrong_user
