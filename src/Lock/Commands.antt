-- ===== src/Lock/Commands.antt =====
-- The commands of Redis that src/utils/distributed-lock.ts sends, itself or from its scripts.
-- `value_of s k` is the value under a key that has not expired at the time of the server.
use spane.Base.{ℕ, ◌<◌, String, ◌≡◌, Bool, true, false, Option, none, some, ◌==◌, if◌then◌else◌}

abbrev pub is_free : Option String → Bool
is_free none = true
is_free (some v) = false

abbrev pub holds : Option String → String → Bool
holds none token = false
holds (some v) token = v == token

abbrev pub count_of : Bool → ℕ
count_of true = 1
count_of false = 0

abbrev pub is_present : Option String → Bool
is_present none = false
is_present (some v) = true

-- `SET key value PX ttl NX`, `GET` (which is `value_of`), `DEL`, `PEXPIRE` and `EXISTS`
pub record Redis : Type 1 where
  pub Server : Type 0
  pub value_of : Server → String → Option String
  pub set_nx : String → String → ℕ → Server → Bool × Server
  pub del : String → Server → ℕ × Server
  pub pexpire : String → ℕ → Server → ℕ × Server
  pub exists : String → Server → ℕ
  pub set_nx_answer :
      (k v : String) (ttl : ℕ) (s : Server)
      → 0 < ttl
      → (set_nx k v ttl s).0 ≡ is_free (value_of s k)
  pub set_nx_value :
      (k v : String) (ttl : ℕ) (s : Server) (j : String)
      → 0 < ttl
      → value_of (set_nx k v ttl s).1 j
        ≡ (if k == j then if is_free (value_of s j) then some v else value_of s j else value_of s j)
  pub del_answer : (k : String) (s : Server) → (del k s).0 ≡ count_of (is_present (value_of s k))
  pub del_value :
      (k : String) (s : Server) (j : String)
      → value_of (del k s).1 j ≡ (if k == j then none else value_of s j)
  pub pexpire_answer :
      (k : String) (ttl : ℕ) (s : Server)
      → (pexpire k ttl s).0 ≡ count_of (is_present (value_of s k))
  pub pexpire_value :
      (k : String) (ttl : ℕ) (s : Server) (j : String)
      → 0 < ttl
      → value_of (pexpire k ttl s).1 j ≡ value_of s j
  pub exists_answer : (k : String) (s : Server) → exists k s ≡ count_of (is_present (value_of s k))
