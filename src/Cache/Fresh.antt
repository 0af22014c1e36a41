-- ===== src/Cache/Fresh.antt =====
-- What the cache gives back after an epoch was put into it.
use ai_ops.Prelude.{
  ℕ, ◌+◌, ◌≡◌, refl, ap, ◌∙◌, String, Bool, true, false, ◌&&◌, Option, none, some, List, [], ◌∷◌,
  str_eq, eq_iff, leb, arith, if◌then◌else◌,
}
use ai_ops.Result.{Moment, aware}
use ai_ops.Cache.{
  Observation, CachedEvidence, Envelope, Entries, is_entry, cached, put_entry, put_observation,
  put_epoch, entry_of, require_fresh, fresh_at, fresh_entry, hit, miss, stale,
}

abbrev pub or_before : Option CachedEvidence → Option CachedEvidence → Option CachedEvidence
or_before none before = before
or_before (some e) before = some e

abbrev pub observed : String → String → Observation → Option Envelope → Option CachedEvidence
observed device key o none = none
observed device key o (some envelope) =
    if str_eq o.device device && str_eq o.key key then some (cached o envelope) else none

-- the last observation of a device and key with an envelope, of an epoch, if there is one
abbrev pub last_observed : String → String → List Observation → Option CachedEvidence
last_observed device key [] = none
last_observed device key (o ∷ os) =
    or_before (last_observed device key os) (observed device key o o.envelope)

entry_of-put :
    (device key : String) (e : CachedEvidence) (entries : Entries)
    → entry_of device key (put_entry e entries)
      ≡ (if is_entry device key e then some e else entry_of device key entries)
unfolding entry_of put_entry
entry_of-put device key e [] = refl
entry_of-put device key e (x ∷ xs) = ground (
  arith,
  entry_of-put device key e xs,
  eq_iff e.device device,
  eq_iff x.device device,
  eq_iff x.device e.device,
  eq_iff e.key key,
  eq_iff x.key key,
  eq_iff x.key e.key,
)

or_before-if :
    (b : Bool) (e : CachedEvidence) (x : Option CachedEvidence)
    → (if b then some e else x) ≡ or_before (if b then some e else none) x
or_before-if true e x = refl
or_before-if false e x = refl

entry_of-put_observation :
    (device key : String) (o : Observation) (envelope : Option Envelope) (entries : Entries)
    → entry_of device key (put_observation o envelope entries)
      ≡ or_before (observed device key o envelope) (entry_of device key entries)
entry_of-put_observation device key o none entries = refl
entry_of-put_observation device key o (some envelope) entries =
    entry_of-put device key (cached o envelope) entries
    ∙ or_before-if (str_eq o.device device && str_eq o.key key) (cached o envelope)
        (entry_of device key entries)

or_before_assoc :
    (a b c : Option CachedEvidence) → or_before a (or_before b c) ≡ or_before (or_before a b) c
or_before_assoc none b c = refl
or_before_assoc (some e) b c = refl

-- an epoch leaves for each device and key the last of its observations, or what was there before
entry_of-put_epoch :
    (device key : String) (os : List Observation) (entries : Entries)
    → entry_of device key (put_epoch os entries)
      ≡ or_before (last_observed device key os) (entry_of device key entries)
unfolding put_epoch
entry_of-put_epoch device key [] entries = refl
entry_of-put_epoch device key (o ∷ os) entries =
    entry_of-put_epoch device key os (put_observation o o.envelope entries)
    ∙ ap (or_before (last_observed device key os))
        (entry_of-put_observation device key o o.envelope entries)
    ∙ or_before_assoc (last_observed device key os) (observed device key o o.envelope)
        (entry_of device key entries)

-- After an epoch was put into the cache, the evidence of a device and key is the last observation
-- of it in the epoch that has an envelope, whatever the cache held before: a hit up to the maximum
-- age after its collection, and stale from then on.
pub put_epoch-require_fresh :
    (from_iso : String → Option Moment) (device key : String) (os : List Observation)
    (entries : Entries) (maximum now : ℕ) (e : CachedEvidence) (t : ℕ)
    → last_observed device key os ≡ some e
    → from_iso e.collected_at ≡ some (aware t)
    → require_fresh from_iso device key (some maximum) now (put_epoch os entries)
      ≡ (if leb now (t + maximum) then hit e else miss stale)
unfolding require_fresh
put_epoch-require_fresh from_iso device key os entries maximum now e t observed_e collected =
    ap (fresh_entry from_iso maximum now) (
      entry_of-put_epoch device key os entries
      ∙ ap (λ o. or_before o (entry_of device key entries)) observed_e)
    ∙ ap (fresh_at e maximum now) collected
