-- ===== src/Buffer.antt =====
-- The bounded text buffers of adbd/src/utils.c. The memory is the list of the bytes before
-- `buffEnd`; a pointer into it is an index. Writing outside of it is none.
pub mod Bounds
use stm32f429_adbd.Common.{
  ℕ, suc, ◌+◌, ◌-◌, ◌%◌, Bool, true, false, ◌||◌, Option, none, some, List, [], ◌∷◌, ◌++◌, ◌==◌,
  if◌then◌else◌, leb, ltb, length, take, drop, set,
}

-- `buff[at] = v`
abbrev pub store_byte : ℕ → ℕ → List ℕ → Option (List ℕ)
store_byte at v mem = if ltb at (length mem) then some (set mem at v) else none

-- `memcpy(buff, data, len)` with the bytes that it copies.
abbrev pub copy_bytes : ℕ → List ℕ → List ℕ → Option (List ℕ)
copy_bytes at bytes mem =
    if leb (at + length bytes) (length mem)
    then some (take at mem ++ (bytes ++ drop (at + length bytes) mem))
    else none

-- The memory and the pointer that a function returns.
unfoldable pub buff_addc : List ℕ → ℕ → ℕ → Option (List ℕ × ℕ)
buff_addc mem buff c =
    if leb (length mem) buff
    then some (mem, buff)
    else if length mem - buff == 1
    then elim (store_byte buff 0 mem) [ none ↦ none | some mem' ↦ some (mem', buff + 1) ]
    else elim (store_byte buff (c % 256) mem) [
      | none ↦ none
      | some mem' ↦ elim (store_byte (buff + 1) 0 mem') [
        | none ↦ none
        | some mem'' ↦ some (mem'', buff + 1)
      ]
    ]

-- The last part of `buff_addb`: the copy, and the NUL behind it or over its last byte.
unfoldable pub put_bytes : List ℕ → ℕ → List ℕ → Option (List ℕ × ℕ)
put_bytes mem buff bytes = elim (copy_bytes buff bytes mem) [
  | none ↦ none
  | some mem' ↦
      let buff' = buff + length bytes in
      elim (store_byte (if leb (length mem) buff' then buff' - 1 else buff') 0 mem') [
        | none ↦ none
        | some mem'' ↦ some (mem'', buff')
      ]
]

-- `src` holds the `len` bytes, at least none.
unfoldable pub buff_addb : List ℕ → ℕ → List ℕ → Option (List ℕ × ℕ)
unfolding put_bytes
buff_addb mem buff src =
    if leb (length mem) buff || length src == 0
    then some (mem, buff)
    else put_bytes mem buff
        (if ltb (length mem - buff) (length src) then take (length mem - buff) src else src)

-- `buff_adds`: the bytes of the string before its NUL.
unfoldable pub buff_adds : List ℕ → ℕ → List ℕ → Option (List ℕ × ℕ)
unfolding buff_addb
buff_adds mem buff s = buff_addb mem buff s
