-- ===== src/Examples/Booting.antt =====
-- The boot lines at concrete inputs.
use asolaria_os.Prelude.{replicate, ◌≡◌, digits, decimal, length, false, arith}
use asolaria_os.Boot.Status.{
  BootObservations, unknown_policy, unknown_path, unknown_format, status_parts, status_line_len,
  render_status_line, classify_boot_stage,
}
use asolaria_os.Boot.Lines.{concat, rendered, render_status_line_lem}

-- Nothing was observed.
abbrev nothing : BootObservations
nothing = record {
  uefi_system_table_present = false;
  con_out_present = false;
  boot_services_present = false;
  gop_located = false;
  framebuffer = record {
    width = 0;
    height = 0;
    pixel_format = unknown_format;
    byte_len = 0;
    base_present = false;
    layout_verified = false;
  };
  secure_boot = unknown_policy;
  loader_path = unknown_path;
}

render_status_line_lem_example :
    (render_status_line nothing (replicate 8 0)
      ≡ rendered (concat (status_parts nothing)) (replicate 8 0))
    × (status_line_len nothing ≡ length (concat (status_parts nothing)))
unfolding status_parts classify_boot_stage decimal digits
render_status_line_lem_example = render_status_line_lem nothing (replicate 8 0) (omega arith)
