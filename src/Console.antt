-- ===== src/Console.antt =====
-- kern/console.c: the input ring, the keyboard and the text screen. What a device driver's
-- `proc` returns, and the bytes of the keyboard controller, are arguments; the ports are left out.
pub mod Keys
pub mod Queue
pub mod Screen
use jos_lab.Base.{
  ℕ, ◌+◌, ◌-◌, ◌*◌, ◌%◌, bit_and, bit_or, bit_xor, Bool, true, false, not, ◌&&◌, ◌||◌, Option, none,
  some, List, [], ◌∷◌, ◌==◌, ltb, leb, if◌then◌else◌, update,
}
use jos_lab.Mmu.{word_mod}
use jos_lab.Console.Keys.{normalmap, shiftmap, ctlmap, shiftcode, togglecode}

abbrev pub consbufsize : ℕ
consbufsize = 512

pub record Cons : Type 0 where
  pub buf : ℕ → ℕ
  pub rpos : ℕ
  pub wpos : ℕ

-- One round of the loop of `cons_intr`, for a result of `proc` other than -1.
unfoldable pub cons_put : ℕ → Cons → Cons
cons_put c k = if c == 0 then k else record k {
  buf = update k.buf k.wpos (c % 256);
  wpos = if k.wpos + 1 == consbufsize then 0 else k.wpos + 1;
}

-- The results of `proc` until it returns -1.
unfoldable pub cons_intr : List ℕ → Cons → Cons
unfolding cons_put
cons_intr [] k = k
cons_intr (c ∷ rest) k = cons_intr rest (cons_put c k)

-- What waits at the devices: whether there is a serial port, the bytes that it has ready, and the
-- results of `kbd_proc_data` until it returns -1.
pub record Devices : Type 0 where
  pub serial_exists : Bool
  pub serial : List ℕ
  pub kbd : List ℕ

unfoldable pub serial_intr : Devices → Cons → Cons
unfolding cons_intr
serial_intr w k = if w.serial_exists then cons_intr w.serial k else k

unfoldable pub kbd_intr : Devices → Cons → Cons
unfolding cons_intr
kbd_intr w k = cons_intr w.kbd k

-- The end of `cons_getc`: the next character of the buffer.
unfoldable pub next_char : Cons → ℕ × Cons
next_char k =
    if k.rpos == k.wpos
    then (0, k)
    else (k.buf k.rpos, record k { rpos = if k.rpos + 1 == consbufsize then 0 else k.rpos + 1 })

-- `cons_getc`, which polls the devices first. They have nothing more behind it.
unfoldable pub cons_getc : Devices → Cons → ℕ × Cons
unfolding serial_intr kbd_intr next_char
cons_getc w k = next_char (kbd_intr w (serial_intr w k))

-- `getchar`, for what waits at the devices at each of its calls of `cons_getc`: the character, or
-- `none` if there is none after all of them.
unfoldable pub getchar : List Devices → Cons → Option ℕ × Cons
unfolding cons_getc
getchar [] k = (none, k)
getchar (w ∷ rest) k =
    let (c, k') = cons_getc w k in
    let later = getchar rest k' in if c == 0 then later else (some c, k')

abbrev e0esc : ℕ
e0esc = 64

abbrev capslock : ℕ
capslock = 8

-- `charcode[shift & (CTL | SHIFT)][code]`
abbrev charcode : ℕ → ℕ → ℕ
charcode shift code =
    if shift % 4 == 0 then normalmap code else if shift % 4 == 1 then shiftmap code else ctlmap code

abbrev swap_case : ℕ → ℕ
swap_case c = if leb 97 c && leb c 122 then c - 32 else if leb 65 c && leb c 90 then c + 32 else c

-- A key that is pressed: the character, and the new `shift`.
unfoldable key_pressed : ℕ → ℕ → ℕ × ℕ
unfolding normalmap shiftmap ctlmap shiftcode togglecode
key_pressed code shift =
    let now = bit_xor (bit_or shift (shiftcode code)) (togglecode code) in
    let c = charcode now code in (if bit_and now capslock == 0 then c else swap_case c, now)

-- The result of `kbd_proc_data` (`none` is -1) and the new `shift`, for the byte that the
-- controller has ready, if any. The reboot on Ctrl-Alt-Del is left out.
unfoldable pub kbd_proc_data : Option ℕ → ℕ → Option ℕ × ℕ
unfolding key_pressed shiftcode
kbd_proc_data none shift = (none, shift)
kbd_proc_data (some code) shift =
    if code == 0xE0
    then (some 0, bit_or shift e0esc)
    else if leb 128 code
    then (let key = if bit_and shift e0esc == 0 then code % 128 else code in
        (some 0, bit_and shift (word_mod - 1 - bit_or (shiftcode key) e0esc)))
    else if bit_and shift e0esc == 0
    then (let (c, now) = key_pressed code shift in (some c, now))
    else (let (c, now) = key_pressed (code + 128) (bit_and shift (word_mod - 1 - e0esc)) in
        (some c, now))

-- The screen.
pub record Crt : Type 0 where
  pub crt_buf : ℕ → ℕ
  pub crt_pos : ℕ

-- kern/console.h
abbrev pub crt_cols : ℕ
crt_cols = 80

abbrev pub crt_size : ℕ
crt_size = 25 * crt_cols

abbrev colored : ℕ → ℕ
colored c = if ltb c 256 then bit_or c 0x0700 else c

-- The `switch` of `cga_putc`, but for the tab.
abbrev pub place : ℕ → Crt → Crt
place c s =
    if c % 256 == 8
    then (if ltb 0 s.crt_pos
        then record {
          crt_buf = update s.crt_buf (s.crt_pos - 1) (bit_or (c - c % 256) 32 % 65536);
          crt_pos = s.crt_pos - 1;
        }
        else s)
    else if c % 256 == 10
    then record s { crt_pos = s.crt_pos + crt_cols - (s.crt_pos + crt_cols) % crt_cols }
    else if c % 256 == 13
    then record s { crt_pos = s.crt_pos - s.crt_pos % crt_cols }
    else record s { crt_buf = update s.crt_buf s.crt_pos (c % 65536); crt_pos = s.crt_pos + 1 }

-- A full screen moves up by one row.
abbrev pub scroll : Crt → Crt
scroll s =
    if leb crt_size s.crt_pos
    then record {
      crt_buf = λ i.
          if ltb i (crt_size - crt_cols)
          then s.crt_buf (i + crt_cols)
          else if ltb i crt_size
          then bit_or 0x0700 32
          else s.crt_buf i;
      crt_pos = s.crt_pos - crt_cols;
    }
    else s

-- `cga_putc` of a character that is no tab, less the cursor's port; `c` is not negative.
unfoldable pub put_char : ℕ → Crt → Crt
put_char c s = scroll (place (colored c) s)

unfoldable pub cga_putc : ℕ → Crt → Crt
unfolding put_char
cga_putc c s =
    if c % 256 == 9
    then scroll (put_char 32 (put_char 32 (put_char 32 (put_char 32 (put_char 32 s)))))
    else put_char c s
