-- ===== src/Cache.antt =====
-- evidence_cache.py: the cache of evidence by device and key, and its freshness. Python's
-- `fromisoformat` is an argument; ages are in microseconds.
pub mod Fresh
use ai_ops.Prelude.{
  ℕ, ◌+◌, String, Bool, true, false, ◌&&◌, Option, none, some, List, [], ◌∷◌, ◌++◌, str_eq, leb,
  keep, if◌then◌else◌,
}
use ai_ops.Result.{Moment, aware, naive}

-- what a device answered, as far as the cache reads it; an envelope that is no mapping is none
abbrev pub Envelope : Type 0
Envelope = List (String × String)

pub record Observation : Type 0 where
  pub device : String
  pub key : String
  pub envelope : Option Envelope
  pub collected_at : String

pub record CachedEvidence : Type 0 where
  pub key : String
  pub device : String
  pub envelope : Envelope
  pub collected_at : String

-- the `EvidenceCacheMiss`es
pub data Miss : Type 0 where
  negative_age not_cached bad_time naive_time stale no_device : Miss

pub data Lookup {ℓ} (A : Type ℓ) : Type ℓ where
  hit : A → Lookup A
  miss : Miss → Lookup A

-- the dictionary in the order of its insertions
abbrev pub Entries : Type 0
Entries = List CachedEvidence

abbrev pub is_entry : String → String → CachedEvidence → Bool
is_entry device key e = str_eq e.device device && str_eq e.key key

unfoldable pub put_entry : CachedEvidence → Entries → Entries
put_entry e [] = e ∷ []
put_entry e (x ∷ xs) =
    let rest = put_entry e xs in if is_entry e.device e.key x then e ∷ xs else x ∷ rest

abbrev pub cached : Observation → Envelope → CachedEvidence
cached o envelope = record {
  key = o.key;
  device = o.device;
  envelope = envelope;
  collected_at = o.collected_at;
}

abbrev pub put_observation : Observation → Option Envelope → Entries → Entries
put_observation o none entries = entries
put_observation o (some envelope) entries = put_entry (cached o envelope) entries

-- `put_epoch`
unfoldable pub put_epoch : List Observation → Entries → Entries
unfolding put_entry
put_epoch [] entries = entries
put_epoch (o ∷ os) entries = put_epoch os (put_observation o o.envelope entries)

unfoldable pub entry_of : String → String → Entries → Option CachedEvidence
entry_of device key [] = none
entry_of device key (x ∷ xs) =
    let rest = entry_of device key xs in if is_entry device key x then some x else rest

abbrev pub fresh_at : CachedEvidence → ℕ → ℕ → Option Moment → Lookup CachedEvidence
fresh_at e maximum now none = miss bad_time
fresh_at e maximum now (some naive) = miss naive_time
fresh_at e maximum now (some (aware t)) = if leb now (t + maximum) then hit e else miss stale

abbrev pub fresh_entry :
    (String → Option Moment) → ℕ → ℕ → Option CachedEvidence → Lookup CachedEvidence
fresh_entry from_iso maximum now none = miss not_cached
fresh_entry from_iso maximum now (some e) = fresh_at e maximum now (from_iso e.collected_at)

-- a negative maximum is none
unfoldable pub require_fresh :
    (String → Option Moment) → String → String → Option ℕ → ℕ → Entries → Lookup CachedEvidence
unfolding entry_of
require_fresh from_iso device key none now entries = miss negative_age
require_fresh from_iso device key (some maximum) now entries =
    fresh_entry from_iso maximum now (entry_of device key entries)

abbrev pub gather :
    Lookup CachedEvidence → Lookup (List (String × Envelope)) → Lookup (List (String × Envelope))
gather (miss m) rest = miss m
gather (hit e) (miss m) = miss m
gather (hit e) (hit es) = hit ((e.key, e.envelope) ∷ es)

unfoldable pub require_each :
    (String → Option Moment)
    → String
    → Option ℕ
    → ℕ
    → Entries
    → Entries
    → Lookup (List (String × Envelope))
unfolding require_fresh
require_each from_iso device maximum now entries [] = hit []
require_each from_iso device maximum now entries (e ∷ es) =
    gather (require_fresh from_iso device e.key maximum now entries)
      (require_each from_iso device maximum now entries es)

abbrev pub of_device : String → Entries → Entries
of_device device = keep (λ (e : CachedEvidence). str_eq e.device device)

abbrev pub some_or_miss :
    Entries → Lookup (List (String × Envelope)) → Lookup (List (String × Envelope))
some_or_miss [] found = miss no_device
some_or_miss (e ∷ es) found = found

unfoldable pub require_device_fresh :
    (String → Option Moment) → String → Option ℕ → ℕ → Entries → Lookup (List (String × Envelope))
unfolding require_each
require_device_fresh from_iso device maximum now entries =
    some_or_miss (of_device device entries)
      (require_each from_iso device maximum now entries (of_device device entries))
