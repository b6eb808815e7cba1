-- ===== src/Cache/Set/Policies.antt =====
-- The virtual functions of `CacheSet` (core/memory_subsystem/cache/cache_set.cc) over its subclasses,
-- and the choice of the subclass by its name.
use Prim.Native.String.{String}
use text.Mathlib.Text.{◌==◌ as str_eq}
use snipersimcommon.Base.{ℕ, ◌%◌, u8, Option, none, some, List, if◌then◌else◌}
use mathlib.Core.Option
use snipersimcommon.Cache.Block.{Ways}
use snipersimcommon.Cache.Policy.SetInfo.{SetInfo, Cntlr}
use snipersimcommon.Cache.Policy.Lru.{Lru}
use snipersimcommon.Cache.Policy.Lru
use snipersimcommon.Cache.Policy.Mru
use snipersimcommon.Cache.Policy.Nmru.{Nmru}
use snipersimcommon.Cache.Policy.Nmru
use snipersimcommon.Cache.Policy.Nru.{Nru}
use snipersimcommon.Cache.Policy.Nru
use snipersimcommon.Cache.Policy.Plru.{Tree}
use snipersimcommon.Cache.Policy.Plru
use snipersimcommon.Cache.Policy.Srrip.{Srrip}
use snipersimcommon.Cache.Policy.Srrip
use snipersimcommon.Cache.Policy.RoundRobin
use snipersimcommon.Cache.Policy.Random

-- The state that each subclass adds.
pub data Policy : Type 0 where
  round_robin : ℕ → Policy
  lru : Lru → Policy
  nru : Nru → Policy
  mru : List ℕ → Policy
  nmru : Nmru → Policy
  plru : Tree → Policy
  srrip : Srrip → Policy
  random : ℕ → Policy

-- `CacheBase::ReplacementPolicy`
pub data Kind : Type 0 where
  round_robin_kind lru_kind lru_qbs_kind nru_kind mru_kind nmru_kind plru_kind srrip_kind
        srrip_qbs_kind random_kind :
      Kind

unfoldable pub parse_policy_type : String → Option Kind
parse_policy_type policy =
    if str_eq policy "round_robin"
    then some round_robin_kind
    else if str_eq policy "lru"
    then some lru_kind
    else if str_eq policy "lru_qbs"
    then some lru_qbs_kind
    else if str_eq policy "nru"
    then some nru_kind
    else if str_eq policy "mru"
    then some mru_kind
    else if str_eq policy "nmru"
    then some nmru_kind
    else if str_eq policy "plru"
    then some plru_kind
    else if str_eq policy "srrip"
    then some srrip_kind
    else if str_eq policy "srrip_qbs"
    then some srrip_qbs_kind
    else if str_eq policy "random"
    then some random_kind
    else none

-- `configured` is the value of `/qbs/attempts` in the configuration.
unfoldable pub get_num_qbs_attempts : Kind → ℕ → ℕ
get_num_qbs_attempts lru_qbs_kind configured = configured % u8
get_num_qbs_attempts srrip_qbs_kind configured = configured % u8
get_num_qbs_attempts _ configured = 1

-- `numbits` is the value of `/srrip/bits`, `seed` that of the clock; `info` is the shared record.
unfoldable pub create_policy : Kind → ℕ → ℕ → ℕ → ℕ → SetInfo → Option Policy
unfolding get_num_qbs_attempts
create_policy round_robin_kind assoc configured numbits seed info =
    some (round_robin (RoundRobin.create assoc))
create_policy lru_kind assoc configured numbits seed info = some (lru (Lru.create assoc info 1))
create_policy lru_qbs_kind assoc configured numbits seed info =
    some (lru (Lru.create assoc info (get_num_qbs_attempts lru_qbs_kind configured)))
create_policy nru_kind assoc configured numbits seed info = some (nru (Nru.create assoc))
create_policy mru_kind assoc configured numbits seed info = some (mru (Mru.create assoc))
create_policy nmru_kind assoc configured numbits seed info = some (nmru (Nmru.create assoc))
create_policy plru_kind assoc configured numbits seed info = Option.map plru (Plru.create assoc)
create_policy srrip_kind assoc configured numbits seed info =
    some (srrip (Srrip.create numbits assoc info 1))
create_policy srrip_qbs_kind assoc configured numbits seed info =
    some (srrip (Srrip.create numbits assoc info (get_num_qbs_attempts srrip_qbs_kind configured)))
create_policy random_kind assoc configured numbits seed info = some (random seed)

abbrev wrap {ℓ} : {A : Type ℓ} → (A → Policy) → Option (ℕ × A) → Option (ℕ × Policy)
wrap f none = none
wrap f (some (i, s)) = some (i, f s)

unfoldable pub get_replacement_index : ℕ → Cntlr → Ways → Policy → Option (ℕ × Policy)
get_replacement_index fuel cntlr w (round_robin s) =
    wrap round_robin (RoundRobin.get_replacement_index w fuel s)
get_replacement_index fuel cntlr w (lru s) = wrap lru (Lru.get_replacement_index cntlr w s)
get_replacement_index fuel cntlr w (nru s) = wrap nru (Nru.get_replacement_index w s)
get_replacement_index fuel cntlr w (mru s) = wrap mru (Mru.get_replacement_index w s)
get_replacement_index fuel cntlr w (nmru s) = wrap nmru (Nmru.get_replacement_index w s)
get_replacement_index fuel cntlr w (plru s) = wrap plru (Plru.get_replacement_index w s)
get_replacement_index fuel cntlr w (srrip s) = wrap srrip (Srrip.get_replacement_index cntlr w s)
get_replacement_index fuel cntlr w (random s) = wrap random (Random.get_replacement_index w fuel s)

unfoldable pub update_replacement_index : Ways → Policy → ℕ → Option Policy
update_replacement_index w (round_robin s) i = some (round_robin s)
update_replacement_index w (lru s) i = Option.map lru (Lru.update_replacement_index s i)
update_replacement_index w (nru s) i = some (nru (Nru.update_replacement_index w.assoc s i))
update_replacement_index w (mru s) i = some (mru (Mru.update_replacement_index s i))
update_replacement_index w (nmru s) i = some (nmru (Nmru.update_replacement_index s i))
update_replacement_index w (plru s) i = Option.map plru (Plru.update_replacement_index w.assoc s i)
update_replacement_index w (srrip s) i = Option.map srrip (Srrip.update_replacement_index s i)
update_replacement_index w (random s) i = some (random s)
