-- ===== src/Lock.antt =====
-- src/utils/distributed-lock.ts: DistributedLock. Redis is not part of the repository: the commands that
-- the class sends are a parameter, with their documented behaviour as laws. The tokens that a call
-- draws are arguments. The timers are modelled by what they do when they fire.
pub mod Commands
pub mod Scripts
pub mod Refines
pub mod Exclusive
pub mod Released
use Prim.Native.String
use spane.Base.{
  ℕ, zero, suc, ◌+◌, ◌*◌, String, Bool, true, false, Option, none, some, List, [], ◌∷◌, ltb, leb,
  eqb, ◌==◌, if◌then◌else◌,
}
use spane.Lock.Commands.{Redis}

pub data OperationType : Type 0 where
  fast default long very_long : OperationType

-- `TTL_PRESETS`
abbrev pub ttl_preset : OperationType → ℕ
ttl_preset fast = 10000
ttl_preset default = 30000
ttl_preset long = 120000
ttl_preset very_long = 300000

abbrev pub default_ttl : ℕ
default_ttl = 30000

-- The renewal interval is `ttl * renewalRatio`, with the ratio in hundredths. Whether a callback is
-- given is all that is modelled of `onExpiring`.
pub record LockOptions : Type 0 where
  pub ttl : Option ℕ
  pub auto_renew : Option Bool
  pub renewal_ratio : Option ℕ
  pub max_renewals : Option ℕ
  pub operation_type : Option OperationType
  pub warns : Bool

pub record RequiredOptions : Type 0 where
  pub ttl : ℕ
  pub auto_renew : Bool
  pub renewal_ratio : ℕ
  pub max_renewals : ℕ
  pub operation_type : OperationType
  pub warns : Bool

pub data GivenOptions : Type 0 where
  absent : GivenOptions
  ttl_only : ℕ → GivenOptions
  given : LockOptions → GivenOptions

abbrev pub default_options : RequiredOptions
default_options = record {
  ttl = default_ttl;
  auto_renew = true;
  renewal_ratio = 50;
  max_renewals = 10;
  operation_type = default;
  warns = false;
}

-- `a ?? b`
abbrev pub or_else {ℓ} : {A : Type ℓ} → Option A → A → A
or_else none b = b
or_else (some a) b = a

-- the preset of an operation type goes before a given ttl
abbrev pub ttl_of : LockOptions → ℕ
ttl_of options = elim options.operation_type [
  | some type ↦ ttl_preset type
  | none ↦ or_else options.ttl default_ttl
]

unfoldable pub normalize_options : GivenOptions → RequiredOptions
normalize_options absent = default_options
normalize_options (ttl_only ttl) = record default_options { ttl = ttl }
normalize_options (given options) = record {
  ttl = ttl_of options;
  auto_renew = or_else options.auto_renew default_options.auto_renew;
  renewal_ratio = or_else options.renewal_ratio default_options.renewal_ratio;
  max_renewals = or_else options.max_renewals default_options.max_renewals;
  operation_type = or_else options.operation_type default_options.operation_type;
  warns = options.warns;
}

abbrev pub lock_key : String → String
lock_key key = String.◌++◌ "lock:" key

-- the token, if the key was free: `result === 'OK' ? token : null`
abbrev pub token_if : Bool → String → Option String
token_if true token = some token
token_if false token = none

-- how an asynchronous call ends
pub data Outcome {ℓ} (A : Type ℓ) : Type ℓ where
  returned : A → Outcome A
  thrown : (message : String) → Outcome A

module _ (redis : Redis) where
  open redis use {Server, value_of, set_nx, del, pexpire, exists}

  -- the script of `release`: `get(KEYS[1]) == ARGV[1]`, then `del`, else 0
  unfoldable pub release_script : String → String → Server → ℕ × Server
  release_script key token s = elim (value_of s key) [
    | none ↦ (0, s)
    | some v ↦ if v == token then del key s else (0, s)
  ]

  -- the script of `extend`: `get(KEYS[1]) == ARGV[1]`, then `pexpire`, else 0
  unfoldable pub extend_script : String → String → ℕ → Server → ℕ × Server
  extend_script key token ttl s = elim (value_of s key) [
    | none ↦ (0, s)
    | some v ↦ if v == token then pexpire key ttl s else (0, s)
  ]

  unfoldable pub acquire : String → Option ℕ → String → Server → Option String × Server
  acquire key ttl token s =
      let (ok, s') = set_nx (lock_key key) token (or_else ttl default_ttl) s in
      (token_if ok token, s')

  unfoldable pub release : String → String → Server → Bool × Server
  unfolding release_script
  release key token s = let (n, s') = release_script (lock_key key) token s in (eqb n 1, s')

  unfoldable pub extend : String → String → ℕ → Server → Bool × Server
  unfolding extend_script
  extend key token ttl s = let (n, s') = extend_script (lock_key key) token ttl s in (eqb n 1, s')

  unfoldable pub is_locked : String → Server → Bool
  is_locked key s = eqb (exists (lock_key key) s) 1

  -- what the timer and the handed-out `renew` know
  pub record Renewal : Type 0 where
    pub server : Server
    pub renewal_count : ℕ
    pub timer_runs : Bool

  abbrev pub start_renewal : RequiredOptions → Server → Renewal
  start_renewal options s = record {
    server = s;
    renewal_count = 0;
    timer_runs = options.auto_renew;
  }

  -- the timer's callback
  unfoldable pub renewal_tick : String → String → RequiredOptions → Renewal → Renewal
  unfolding extend
  renewal_tick key token options r =
      let (extended, s') = extend key token options.ttl r.server in
      if leb options.max_renewals r.renewal_count
      then record r { timer_runs = false }
      else if extended
      then record r { server = s'; renewal_count = r.renewal_count + 1 }
      else record r { server = s'; timer_runs = false }

  -- the function that `fn` is given
  unfoldable pub renew : String → String → RequiredOptions → Option ℕ → Renewal → Bool × Renewal
  unfolding extend
  renew key token options new_ttl r =
      let (extended, s') = extend key token (or_else new_ttl options.ttl) r.server in
      (extended, record r { server = s'; renewal_count = r.renewal_count + 1 })

  -- `try { return await fn(renew) } finally { await this.release(key, token) }`
  abbrev pub finish {ℓ} :
      {A : Type ℓ} → String → String → Outcome A × Renewal → Outcome (Option A) × Server
  finish key token (returned a, r) = (returned (some a), (release key token r.server).1)
  finish key token (thrown message, r) = (thrown message, (release key token r.server).1)

  -- `fn` ends with a value or with an error, and with the server as it then is; null where the lock is
  -- held by another
  unfoldable pub with_lock {ℓ} :
      {A : Type ℓ}
      → String
      → String
      → GivenOptions
      → (Renewal → Outcome A × Renewal)
      → Server
      → Outcome (Option A) × Server
  unfolding normalize_options release
  with_lock key token options fn s =
      let required = normalize_options options in
      let (ok, s') = set_nx (lock_key key) token required.ttl s in
      let ended = finish key token (fn (start_renewal required s')) in
      if ok then ended else (returned none, s')
