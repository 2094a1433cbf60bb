-- ===== src/Examples/Server.antt =====
-- The texts of the server at concrete inputs.
use asolaria_os.Prelude.{◌≡◌, refl, ◌++◌, bytes, starts_with, contains, some}
use asolaria_os.Surface.{base64, from_first, boundary, http_response_body, fabric_port_for_context}

-- The vector of RFC 4648.
foobar : base64 (bytes "foob") ≡ bytes "Zm9vYg=="
unfolding base64
foobar = refl

body_after_boundary :
    http_response_body (bytes "HTTP/1.1 200 OK" ++ (boundary ++ bytes "ok")) ≡ bytes "ok"
unfolding http_response_body from_first starts_with
body_after_boundary = refl

other_seat : fabric_port_for_context (bytes "acer") (some (bytes "LIRIS-PC")) ≡ 4944
unfolding fabric_port_for_context contains starts_with
other_seat = refl
