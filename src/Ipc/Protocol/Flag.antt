-- ===== src/Ipc/Protocol/Flag.antt =====
-- shared/ipc/IpcProtocol.{h,cpp}: the flag bits of a header.
use Prim.Native.Nat.{bit_and, bit_or}
use Prim.Native.String.{String, ◌++◌}
use text.Mathlib.Text.{◌==◌ as str_eq}
use nf_nms.Common.{ℕ, Bool, not, ◌==◌, if◌then◌else◌}

pub data IpcFlag : Type 0 where
  no_flag request response error broadcast : IpcFlag

unfoldable pub to_flag : IpcFlag → ℕ
to_flag no_flag = 0
to_flag request = 1
to_flag response = 2
to_flag error = 4
to_flag broadcast = 8

unfoldable pub or_flag : IpcFlag → IpcFlag → ℕ
unfolding to_flag
or_flag lhs rhs = bit_or (to_flag lhs) (to_flag rhs)

unfoldable pub has_flag : ℕ → IpcFlag → Bool
unfolding to_flag
has_flag flags flag = not (bit_and flags (to_flag flag) == 0)

-- One step of the lambda `append`: the name of a bit that is set, behind a bar if it is not first.
add_flag : ℕ → IpcFlag → String → String → String
unfolding has_flag
add_flag flags flag name out =
    if has_flag flags flag then (if str_eq out "" then out else out ++ "|") ++ name else out

unfoldable pub flags_to_str : ℕ → String
unfolding add_flag
flags_to_str flags =
    if flags == to_flag no_flag
    then "None"
    else add_flag flags broadcast "Broadcast" (
        add_flag flags error "Error"
          (add_flag flags response "Response" (add_flag flags request "Request" "")))
