-- ===== src/Kvp/Load.antt =====
-- `nl_build_hash_cb` and `nl_hash_parse` of src/kvp.c.
use nlutils.Prelude.{ℕ, suc, Bool, true, Option, none, some, List, [], ◌∷◌, ◌==◌, if◌then◌else◌}
use nlutils.Ctype.{Bytes}
use nlutils.Fifo.Store.{Ptr, null}
use nlutils.Hash.World.{Action, give, ◌>>◌}
use nlutils.Hash.Ops.{Alloc, nl_hash_set}
use nlutils.Kvp.Parse.{Pair, nl_parse_kvp}

-- The result of `nl_hash_set` is not used.
unfoldable pub nl_build_hash_cb : Alloc → Ptr → Pair → Action (Unit {0})
nl_build_hash_cb a hash p = nl_hash_set a hash (some p.key) (some p.value) >> give tt

-- The calls for the pairs, each with what the allocator gives to it.
unfoldable pub build_hash : (allocs : ℕ → Alloc) → (index : ℕ) → Ptr → List Pair → Action (Unit {0})
build_hash allocs index hash [] = give tt
build_hash allocs index hash (p ∷ ps) =
    nl_build_hash_cb (allocs index) hash p >> build_hash allocs (suc index) hash ps

unfoldable pub nl_hash_parse :
    (dup_ok : ℕ → Bool) → (allocs : ℕ → Alloc) → Ptr → Option Bytes → Action (Unit {0})
nl_hash_parse dup_ok allocs hash none = give tt
nl_hash_parse dup_ok allocs hash (some kvp) =
    if hash == null then give tt else build_hash allocs 0 hash (nl_parse_kvp (some kvp) true dup_ok)
