-- ===== src/Boot/Status.antt =====
-- kernel/core/src/boot_diag.rs: the boot stage that early observations support, and the status line.
use asolaria_os.Prelude.{
  ℕ, List, [], ◌∷◌, Bytes, bytes, decimal, ◌==◌, not, ◌&&◌, Bool, true, false, if◌then◌else◌,
  Option, Result,
}
use asolaria_os.Boot.Writer.{RenderError, count_only, with_buffer, push_all, finish}

pub data SecureBootState : Type 0 where
  unknown_policy enabled disabled : SecureBootState

pub data LoaderPathClass : Type 0 where
  firmware_efi windows_boot_manager unknown_path : LoaderPathClass

pub data PixelFormat : Type 0 where
  rgb bgr bitmask blt_only unknown_format : PixelFormat

abbrev pub secure_boot_wire : SecureBootState → Bytes
secure_boot_wire unknown_policy = bytes "unknown"
secure_boot_wire enabled = bytes "enabled"
secure_boot_wire disabled = bytes "disabled"

abbrev pub loader_path_wire : LoaderPathClass → Bytes
loader_path_wire firmware_efi = bytes "firmware-efi"
loader_path_wire windows_boot_manager = bytes "windows-bootmgr"
loader_path_wire unknown_path = bytes "unknown"

abbrev pub pixel_format_wire : PixelFormat → Bytes
pixel_format_wire rgb = bytes "rgb"
pixel_format_wire bgr = bytes "bgr"
pixel_format_wire bitmask = bytes "bitmask"
pixel_format_wire blt_only = bytes "blt-only"
pixel_format_wire unknown_format = bytes "unknown"

unfoldable pub is_direct_framebuffer : PixelFormat → Bool
is_direct_framebuffer rgb = true
is_direct_framebuffer bgr = true
is_direct_framebuffer bitmask = true
is_direct_framebuffer blt_only = false
is_direct_framebuffer unknown_format = false

pub record FramebufferObservation : Type 0 where
  pub width : ℕ
  pub height : ℕ
  pub pixel_format : PixelFormat
  pub byte_len : ℕ
  pub base_present : Bool
  pub layout_verified : Bool

unfoldable pub is_direct_complete : FramebufferObservation → Bool
unfolding is_direct_framebuffer
is_direct_complete fb =
    not (fb.width == 0)
    && not (fb.height == 0)
    && not (fb.byte_len == 0)
    && fb.base_present
    && fb.layout_verified
    && is_direct_framebuffer fb.pixel_format

pub record BootObservations : Type 0 where
  pub uefi_system_table_present : Bool
  pub con_out_present : Bool
  pub boot_services_present : Bool
  pub gop_located : Bool
  pub framebuffer : FramebufferObservation
  pub secure_boot : SecureBootState
  pub loader_path : LoaderPathClass

unfoldable pub has_direct_framebuffer : BootObservations → Bool
unfolding is_direct_complete
has_direct_framebuffer o = o.gop_located && is_direct_complete o.framebuffer

pub data BootStage : Type 0 where
  no_uefi uefi_table uefi_console boot_services graphics_output : BootStage
  framebuffer_stage metal_candidate metal_ready policy_guarded : BootStage

abbrev pub stage_wire : BootStage → Bytes
stage_wire no_uefi = bytes "no-uefi"
stage_wire uefi_table = bytes "uefi-table"
stage_wire uefi_console = bytes "uefi-console"
stage_wire boot_services = bytes "boot-services"
stage_wire graphics_output = bytes "graphics-output"
stage_wire framebuffer_stage = bytes "framebuffer"
stage_wire metal_candidate = bytes "metal-candidate"
stage_wire metal_ready = bytes "pre-driver-ready"
stage_wire policy_guarded = bytes "policy-guarded"

-- The `match` on the path and the policy, with a direct framebuffer.
unfoldable pub by_policy : LoaderPathClass → SecureBootState → BootStage
by_policy firmware_efi disabled = metal_ready
by_policy firmware_efi unknown_policy = metal_candidate
by_policy windows_boot_manager _ = policy_guarded
by_policy _ enabled = policy_guarded
by_policy unknown_path _ = framebuffer_stage

unfoldable pub classify_boot_stage : BootObservations → BootStage
unfolding by_policy has_direct_framebuffer
classify_boot_stage o =
    if not o.uefi_system_table_present
    then no_uefi
    else if has_direct_framebuffer o
    then by_policy o.loader_path o.secure_boot
    else if o.gop_located
    then graphics_output
    else if o.boot_services_present
    then boot_services
    else if o.con_out_present
    then uefi_console
    else uefi_table

abbrev pub bool_byte : Bool → Bytes
bool_byte value = (if value then b'1' else b'0') ∷ []

-- What `render_status_line_inner` pushes. The digits of a number are those of `decimal`.
unfoldable pub status_parts : BootObservations → List Bytes
unfolding classify_boot_stage
status_parts o =
    let fb = o.framebuffer in
    bytes
      "ASOBTDIAG|format=hbpish|evidence=MEASURED_BOOT|source=uefi|seat=unknown|receipt=unsealed|tuple=boot:diag:early|stage="
    ∷ stage_wire (classify_boot_stage o)
    ∷ bytes "|uefi="
    ∷ bool_byte o.uefi_system_table_present
    ∷ bytes "|conout="
    ∷ bool_byte o.con_out_present
    ∷ bytes "|bs="
    ∷ bool_byte o.boot_services_present
    ∷ bytes "|gop="
    ∷ bool_byte o.gop_located
    ∷ bytes "|fb="
    ∷ decimal fb.width
    ∷ bytes "x"
    ∷ decimal fb.height
    ∷ bytes "/"
    ∷ pixel_format_wire fb.pixel_format
    ∷ bytes "/"
    ∷ decimal fb.byte_len
    ∷ bytes "|fbbase="
    ∷ bool_byte fb.base_present
    ∷ bytes "|fblayout="
    ∷ bool_byte fb.layout_verified
    ∷ bytes "|sb="
    ∷ secure_boot_wire o.secure_boot
    ∷ bytes "|loader="
    ∷ loader_path_wire o.loader_path
    ∷ []

unfoldable pub status_line_len : BootObservations → ℕ
unfolding status_parts push_all
status_line_len o = (push_all (status_parts o) count_only).required

unfoldable pub render_status_line : BootObservations → Bytes → Result RenderError ℕ × Option Bytes
unfolding status_parts push_all finish
render_status_line o out =
    let w = push_all (status_parts o) (with_buffer out) in (finish w, w.buffer)
