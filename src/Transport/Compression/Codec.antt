-- ===== src/Transport/Compression/Codec.antt =====
-- src/transport/compression.rs: `Compressor` and `Extractor`. The crate flate2 is a parameter; its
-- `reset` gives a stream back its state as new, so a compressor keeps the settings of its stream in
-- place of the stream. The buffer is cleared for each message; its capacity is kept.
use iscp_rs.Base.{
  ℕ, zero, suc, ◌+◌, ◌-◌, ◌*◌, ◌≡◌, ◌≤◌, ◌<◌, Bool, true, not, Option, none, some, [], ◌∷◌, ◌++◌,
  if◌then◌else◌, ltb, ◌==◌, nat_eq, length, drop, is_empty, u32_mod,
}
use iscp_rs.Base.Int.{ℤ, pos, negsuc}
use iscp_rs.Errors.{Outcome, ok, err, panic}
use iscp_rs.Message.Types.{Bytes}
use iscp_rs.Transport.Compression.{Compression, DictionaryBuffer, new_dictionary, push_msg}

pub data Status : Type 0 where
  progressed : Status
  buf_error : Status
  stream_end : Status

-- One direction of flate2: `process` is `compress_vec` or `decompress_vec` on the rest of the data, with
-- the room that was reserved, and whether the data are to be finished; it gives what it appends.
pub record Stream (S : Type 0) : Type 0 where
  pub total_in : S → ℕ
  pub set_dictionary : S → Bytes → Outcome S
  pub process : S → Bytes → ℕ → Bool → Outcome (Status × Bytes × S)

module _ {S : Type 0} (z : Stream S) where
  -- The loop over a message, with the capacity of the buffer: `none` says that the fuel was short.
  -- `reserve` is `Vec::reserve`, from the capacity and the length.
  unfoldable pub run_loop :
      (ℕ → ℕ → ℕ → ℕ) → ℕ → S → Bytes → Bytes → ℕ → ℕ → Option (Outcome Bytes) × ℕ
  run_loop reserve zero s msg buffer capacity increment = (none, capacity)
  run_loop reserve (suc fuel) s msg buffer capacity increment =
      let total_in = z.total_in s in
      elim (z.process s (drop total_in msg) (capacity - length buffer)
        (not (ltb total_in (length msg)))) [
          | err e ↦ (some (err e), capacity)
          | panic ↦ (some panic, capacity)
          | ok (status, piece, s') ↦
              let buffer' = buffer ++ piece in
              let rest =
                run_loop reserve fuel s' msg buffer' (reserve capacity (length buffer') increment)
                  increment in
              elim status [
                | progressed ↦ rest
                | buf_error ↦ if z.total_in s' == 0 then (some (ok buffer'), capacity) else rest
                | stream_end ↦ (some (ok buffer'), capacity)
              ]
        ]

  -- An empty dictionary is not set.
  unfoldable pub with_dictionary : S → Option DictionaryBuffer → Outcome S
  with_dictionary s none = ok s
  with_dictionary s (some d) = if is_empty d.buf then ok s else z.set_dictionary s d.buf

  -- A message on a new stream, behind a dictionary.
  unfoldable pub run_stream :
      (ℕ → ℕ → ℕ → ℕ)
      → ℕ
      → S
      → Option DictionaryBuffer
      → Bytes
      → ℕ
      → ℕ
      → ℕ
      → Option (Outcome Bytes) × ℕ
  run_stream reserve fuel s dictionary msg capacity reserved increment =
      elim (with_dictionary s dictionary) [
        | err e ↦ (some (err e), capacity)
        | panic ↦ (some panic, capacity)
        | ok s' ↦ run_loop reserve fuel s' msg [] (reserve capacity 0 reserved) increment
      ]

  -- A stream that was given a dictionary, if that is not empty.
  abbrev pub Primed : S → Bytes → S → Type 0
  Primed s [] s' = s ≡ s'
  Primed s (b ∷ bs) s' = z.set_dictionary s (b ∷ bs) ≡ ok s'

  -- What one call comes to.
  abbrev pub Called :
      (S → Bytes → Type 0) → (S → ℕ) → Bytes → S → Bytes → Status → Bytes → S → Type 0
  Called At left output s out progressed piece s' = At s' (out ++ piece) × (left s' < left s)
  Called At left output s out buf_error piece s' = ⊥
  Called At left output s out stream_end piece s' = out ++ piece ≡ output

  -- How a stream turns `input` into `output`, call by call: when it is given all the input it has not
  -- taken yet and some room, and is told to finish exactly when no input is left, then it makes
  -- progress, and it ends when all the output is out.
  pub record Runs (s0 : S) (input output : Bytes) : Type 1 where
    pub At : S → Bytes → Type 0
    pub left : S → ℕ
    pub begins : At s0 []
    pub call :
        (s : S) (out : Bytes) (room : ℕ)
        → At s out
        → 0 < room
        → (status : Status) × (piece : Bytes) × (s' : S) × (z.process s
              (drop (z.total_in s) input)
              room
              (not (ltb (z.total_in s) (length input)))
            ≡ ok (status, piece, s'))
          × Called At left output s out status piece s'

  -- Without input a call on a new stream comes to nothing.
  abbrev pub IsBlank : S → ℕ → Type 0
  IsBlank s room =
      (z.total_in s ≡ 0)
      × ((s' : S) × (z.process s [] room true ≡ ok (buf_error, [], s')) × (z.total_in s' ≡ 0))

-- flate2, and the growth of a `Vec`. `deflated` is what a message becomes, by the level, the window
-- bits and the dictionary.
pub record Flate2 (C D : Type 0) : Type 1 where
  pub new_compress : ℕ → Option ℕ → C
  pub new_decompress : Option ℕ → D
  pub deflate : Stream C
  pub inflate : Stream D
  pub reserve : ℕ → ℕ → ℕ → ℕ
  pub reserves : (capacity len additional : ℕ) → len + additional ≤ reserve capacity len additional
  pub deflated : ℕ → Option ℕ → Bytes → Bytes → Bytes
  pub has_bytes :
      (level : ℕ) (bits : Option ℕ) (d msg : Bytes) → 0 < length (deflated level bits d msg)
  pub deflates :
      (level : ℕ) (bits : Option ℕ) (d msg : Bytes) (s : C)
      → Primed deflate (new_compress level bits) d s
      → Runs deflate s msg (deflated level bits d msg)
  pub no_room :
      (level : ℕ) (bits : Option ℕ) (d : Bytes) (s : C)
      → Primed deflate (new_compress level bits) d s
      → IsBlank deflate s 0
  -- A dictionary that a compressor takes, a decompressor takes too.
  pub primes :
      (level : ℕ) (bits : Option ℕ) (d : Bytes) (s : C)
      → Primed deflate (new_compress level bits) d s
      → (x : D) × Primed inflate (new_decompress bits) d x
  pub inflates :
      (level : ℕ) (bits : Option ℕ) (d msg : Bytes) (x : D)
      → Primed inflate (new_decompress bits) d x
      → Runs inflate x (deflated level bits d msg) msg
  pub no_data :
      (bits : Option ℕ) (d : Bytes) (x : D) (room : ℕ)
      → Primed inflate (new_decompress bits) d x
      → IsBlank inflate x room

-- The settings of a stream: the level is there for a compressor only.
pub record Compressor : Type 0 where
  pub stream : Option (ℕ × Option ℕ)
  pub capacity : ℕ
  pub buffer_increment_size : ℕ
  pub dictionary : Option DictionaryBuffer

pub record Extractor : Type 0 where
  pub stream : Option (Option ℕ)
  pub capacity : ℕ
  pub buffer_increment_size : ℕ
  pub dictionary : Option DictionaryBuffer

-- `level as u32`.
abbrev pub as_u32 : ℤ → ℕ
as_u32 (pos n) = n
as_u32 (negsuc n) = u32_mod - (n + 1)

-- `window_bits.map(DictionaryBuffer::new)`; the outer `none` is a panic.
unfoldable pub dictionary_for : Option ℕ → Option (Option DictionaryBuffer)
dictionary_for none = some none
dictionary_for (some bits) = elim (new_dictionary bits) [ none ↦ none | some d ↦ some (some d) ]

unfoldable pub new_compressor : Option ℤ → Option ℕ → Option Compressor
new_compressor none window_bits =
    some (record { stream = none; capacity = 0; buffer_increment_size = 128; dictionary = none })
new_compressor (some level) window_bits = elim (dictionary_for window_bits) [
  | none ↦ none
  | some d ↦ some (record {
    stream = some (as_u32 level, window_bits);
    capacity = 0;
    buffer_increment_size = 128;
    dictionary = d;
  })
]

unfoldable pub new_extractor : Option ℤ → Option ℕ → Option Extractor
new_extractor none window_bits =
    some (record { stream = none; capacity = 0; buffer_increment_size = 128; dictionary = none })
new_extractor (some level) window_bits = elim (dictionary_for window_bits) [
  | none ↦ none
  | some d ↦ some (record {
    stream = some window_bits;
    capacity = 0;
    buffer_increment_size = 128;
    dictionary = d;
  })
]

unfoldable pub converters : Compression → Option (Compressor × Extractor)
converters c = elim (new_compressor c.level c.window_bits) [
  | none ↦ none
  | some compressor ↦ elim (new_extractor c.level c.window_bits) [
    | none ↦ none
    | some extractor ↦ some (compressor, extractor)
  ]
]

abbrev pub pushed : Option DictionaryBuffer → Bytes → Option DictionaryBuffer
pushed none msg = none
pushed (some d) msg = some (push_msg d msg)

module _ {C D : Type 0} (f : Flate2 C D) where
  -- The message that `msg` becomes; a compressor takes it into its dictionary before it is
  -- compressed, but behind a dictionary that could be set.
  unfoldable pub compress : ℕ → Compressor → Bytes → Option (Outcome Bytes) × Compressor
  compress fuel c msg = elim c.stream [
    | none ↦ (some (ok msg), c)
    | some (level, window_bits) ↦
        let s = f.new_compress level window_bits in
        let (result, capacity) =
          run_stream f.deflate f.reserve fuel s c.dictionary msg c.capacity (length msg)
            c.buffer_increment_size in
        let c' = record c { capacity = capacity } in
        (
          result,
          elim (with_dictionary f.deflate s c.dictionary) [
            | ok s' ↦ record c' { dictionary = pushed c.dictionary msg }
            | err e ↦ c'
            | panic ↦ c'
          ],
        )
  ]

  -- An extractor takes the message into its dictionary when it has it.
  unfoldable pub extract : ℕ → Extractor → Bytes → Option (Outcome Bytes) × Extractor
  extract fuel x msg = elim x.stream [
    | none ↦ (some (ok msg), x)
    | some window_bits ↦
        let (result, capacity) =
          run_stream f.inflate f.reserve fuel (f.new_decompress window_bits) x.dictionary msg
            x.capacity (length msg * 2) x.buffer_increment_size in
        let x' = record x { capacity = capacity } in
        (
          result,
          elim result [
            | none ↦ x'
            | some (err e) ↦ x'
            | some panic ↦ x'
            | some (ok out) ↦ record x' { dictionary = pushed x.dictionary out }
          ],
        )
  ]
