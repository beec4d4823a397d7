-- ===== src/Integrity/Keys.antt =====
-- Texts of ASCII bytes, and the key of the lab (src/agent_control_plane/provenance_integrity.py).
use Prim.Native.String.{String}
use llm_agent_control_plane.Base.{code, Bool, true, ◌&&◌, [], ◌∷◌, leb}
use llm_agent_control_plane.Platform.{Bytes}

-- The bytes of an ASCII literal `b"…"`.
unfoldable pub ascii_bytes : String → Bytes
ascii_bytes String.[] = []
ascii_bytes (String.◌∷◌ c s) = code c ∷ ascii_bytes s

-- `s.isascii()`
unfoldable pub is_ascii : String → Bool
is_ascii String.[] = true
is_ascii (String.◌∷◌ c s) = leb (code c) 0x7f && is_ascii s

-- `LAB_DEMO_HMAC_KEY`
unfoldable pub lab_demo_hmac_key : Bytes
unfolding ascii_bytes
lab_demo_hmac_key = ascii_bytes "llm-agent-control-plane-lab-fake-hmac-key-for-tests-only"
