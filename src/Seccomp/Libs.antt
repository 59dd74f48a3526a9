-- ===== src/Seccomp/Libs.antt =====
-- The libraries that stage3/extension/seccomp.c calls, as interfaces with their documented laws:
-- libseccomp (<seccomp.h>) and uthash (stage3/extension/uthash.h, a copy of another project).
use saphire.Prelude.{◌≡◌, ◌≢◌, Bool, false, ◌&&◌, ◌||◌, Option, none, some}
use saphire.Prelude.Int.{ℤ, int_eq}
use saphire.Clib.{Bytes}

-- SCMP_ACT_KILL (the same number as SECCOMP_RET_KILL, 0) and SCMP_ACT_ALLOW.
pub data Action : Type 0 where
  kill allow : Action

-- seccomp_init may return NULL; seccomp_rule_add and seccomp_load return 0 or a negative error.
pub record Seccomp : Type 1 where
  pub Ctx : Type 0
  pub init : Action → Option Ctx
  pub rule_add : Ctx → Action → ℤ → Ctx × ℤ
  pub load : Ctx → ℤ

-- What a context lets through, and how the calls change it. A rule for a number that the library
-- does not support, and a rule whose action is the default one, are refused and change nothing.
pub record SeccompLaws (lib : Seccomp) : Type 1 where
  pub permits : lib.Ctx → ℤ → Bool
  pub supported : ℤ → Bool
  pub init_kill : (c : lib.Ctx) (n : ℤ) → lib.init kill ≡ some c → permits c n ≡ false
  pub rule_add_allow :
      (c : lib.Ctx) (n m : ℤ)
      → permits (lib.rule_add c allow n).0 m ≡ ((supported n && int_eq n m) || permits c m)
  pub rule_add_kill :
      (c d : lib.Ctx) (n m : ℤ)
      → lib.init kill ≡ some d
      → permits (lib.rule_add c kill n).0 m ≡ permits c m

-- HASH_ADD_STR and HASH_FIND_STR on a table of items that carry their key; NULL is the empty table.
pub record Uthash (V : Type 0) : Type 1 where
  pub Table : Type 0
  pub null_table : Table
  pub add_str : Bytes → V → Table → Table
  pub find_str : Bytes → Table → Option V

-- The keys of a table have to be distinct: of an added duplicate nothing is said.
pub record UthashLaws {V : Type 0} (lib : Uthash V) : Type 1 where
  pub find-null : (k : Bytes) → lib.find_str k lib.null_table ≡ none
  pub find-add_ne :
      (k j : Bytes) (v : V) (t : lib.Table)
      → k ≢ j
      → lib.find_str j (lib.add_str k v t) ≡ lib.find_str j t
  pub find-add_self :
      (k : Bytes) (v : V) (t : lib.Table)
      → lib.find_str k t ≡ none
      → lib.find_str k (lib.add_str k v t) ≡ some v
