-- ===== src/Msi/Message.antt =====
-- core/memory_subsystem/pr_l1_pr_l2_dram_directory_msi/shmem_msg.{h,cc} and shmem_req.{h,cc},
-- directory_schemes/coherency_protocol.h. Times, performance records and the place of a hit are left out.
use Prim.Native.String.{String}
use text.Mathlib.Text.{◌==◌ as str_eq}
use snipersimcommon.Base.{ℕ, Bool, true, false, not, Option, none, some, ◌==◌, if◌then◌else◌}
use snipersimcommon.Directory.Entry.{invalid_core_id}
use snipersimcommon.Run.{Run, done, abort, check, ◌>>◌}

-- `ShmemMsg::msg_t`
pub data MsgType : Type 0 where
  ex_req sh_req upgrade_req inv_req flush_req wb_req : MsgType
  ex_rep sh_rep upgrade_rep inv_rep flush_rep wb_rep nullify_req : MsgType
  dram_read_req dram_write_req dram_read_rep : MsgType

-- `MemComponent::component_t`
pub data Component : Type 0 where
  core l1_icache l1_dcache l2_cache l3_cache l4_cache : Component
  last_level_cache tag_dir nuca_cache dram_cache dram : Component

-- A message, with the component and the core that it is sent to. The contents of a data buffer are a number.
pub record ShmemMsg : Type 0 where
  pub msg_type : MsgType
  pub component : Component
  pub requester : ℕ
  pub receiver : ℕ
  pub address : ℕ
  pub data_buf : Option ℕ

pub record ShmemReq : Type 0 where
  pub shmem_msg : ShmemMsg
  pub wait_for_data : Bool
  pub forwarding_from : ℕ

abbrev pub is_null : Option ℕ → Bool
is_null none = true
is_null (some _) = false

-- The constructor of `ShmemReq`.
unfoldable pub create_req : ShmemMsg → Run ShmemReq
create_req shmem_msg = do
  check (is_null shmem_msg.data_buf)
  done (record { shmem_msg = shmem_msg; wait_for_data = false; forwarding_from = invalid_core_id })

unfoldable pub is_forwarding : ShmemReq → Bool
is_forwarding req = not (req.forwarding_from == invalid_core_id)

-- `CoherencyProtocol::type_t`
pub data Protocol : Type 0 where
  msi mesi mesif : Protocol

unfoldable pub parse_protocol : String → Run Protocol
parse_protocol s =
    if str_eq s "msi"
    then done msi
    else if str_eq s "mesi"
    then done mesi
    else if str_eq s "mesif"
    then done mesif
    else abort

abbrev pub is_mesif : Protocol → Bool
is_mesif mesif = true
is_mesif _ = false
