-- ===== src/Process/Buffer.antt =====
-- `BoundedBuffer` of crates/gocode-tools/src/process.rs. A text is cut between whole characters.
pub mod Bounds
use Prim.Native.Char.{Char, len_utf8}
use Prim.Native.String
use Prim.Native.String.{String, [], ◌∷◌, ◌++◌, len}
use gocode.Base.{ℕ, zero, suc, ◌-◌, ltb, leb, Bool, true, false, List, if◌then◌else◌, format}

pub record BoundedBuffer : Type 0 where
  pub limit : ℕ
  pub head : String
  pub tail : String
  pub truncated : Bool

unfoldable pub new_buffer : ℕ → BoundedBuffer
new_buffer limit = record { limit = limit; head = ""; tail = ""; truncated = false }

-- The characters that lie whole within so many bytes, and the rest.
unfoldable pub split_bytes : ℕ → String → String × String
split_bytes n [] = ([], [])
split_bytes n (c ∷ s) =
    let (front, rest) = split_bytes (n - len_utf8 c) s in
    if leb (len_utf8 c) n then (c ∷ front, rest) else ([], c ∷ s)

-- What is left once so many bytes at least are cut.
unfoldable pub cut_bytes : ℕ → String → String
cut_bytes zero s = s
cut_bytes (suc n) [] = []
cut_bytes (suc n) (c ∷ s) = cut_bytes (suc n - len_utf8 c) s

unfoldable pub push_tail : String → BoundedBuffer → BoundedBuffer
push_tail chunk b =
    let tail = b.tail ++ chunk in
    record b { tail = if ltb b.limit (len tail) then cut_bytes (len tail - b.limit) tail else tail }

unfoldable pub push : String → BoundedBuffer → BoundedBuffer
push chunk b =
    let remaining = b.limit - len b.head in
    let (front, rest) = split_bytes remaining chunk in
    let split = push_tail rest (record b { head = b.head ++ front; truncated = true }) in
    let past = push_tail chunk (record b { truncated = true }) in
    if ltb (len b.head) b.limit
    then if leb (len chunk) remaining then record b { head = b.head ++ chunk } else split
    else past

unfoldable pub finish : BoundedBuffer → String × Bool
finish b =
    if b.truncated
    then (
      format
          (List.◌∷◌ b.head (List.◌∷◌ "\n[... output truncated ...]\n" (List.◌∷◌ b.tail List.[]))),
      true,
    )
    else (b.head, false)

-- The chunks that a process writes, one after the other.
unfoldable pub push_all : List String → BoundedBuffer → BoundedBuffer
push_all List.[] b = b
push_all (List.◌∷◌ chunk chunks) b = push_all chunks (push chunk b)
