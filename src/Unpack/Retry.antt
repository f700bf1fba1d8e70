-- ===== src/Unpack/Retry.antt =====
-- The layers and their retries: `UnpackLayers`, `unpackLayer`, `cappedReader` and `unpackLayerWithRetry` of
-- pkg/ociclient/unpack.go. Streams, containerd's archive.Apply and the extraction enter as what they
-- answer.
use hull.Prelude.{
  ℕ, zero, suc, ◌+◌, ◌-◌, ◌*◌, Bool, true, false, not, ◌||◌, Option, none, some, List, [], ◌∷◌,
  Bytes, if◌then◌else◌, ltb, ◌==◌, codes, has_prefix,
}
use hull.Supervisor.Policy.{second}

-- `cappedReader`, but for the reader it wraps.
pub record CappedReader : Type 0 where
  pub limit : ℕ
  pub count : ℕ
  pub tripped : Bool

-- An error of the stream, or that the layer is too large.
pub data ReadError : Type 0 where
  stream : ReadError
  bomb : ReadError

-- `Read`, of which the wrapped reader gives `n` bytes and its error: the bytes and the error.
unfoldable pub read : CappedReader → ℕ → Option ReadError → ℕ × Option ReadError × CappedReader
read c n err =
    let counted = record c { count = c.count + n } in
    if c.tripped
    then (0, some bomb, c)
    else if ltb c.limit counted.count
    then (n, some bomb, record counted { tripped = true })
    else (n, err, counted)

-- What `errors.Is` says of an error, and its text.
pub record Fault : Type 0 where
  pub is_unexpected_eof : Bool
  pub is_reset : Bool
  pub is_broken_pipe : Bool
  pub is_deadline : Bool
  pub is_permission : Bool
  pub message : Bytes

unfoldable pub contains : Bytes → Bytes → Bool
contains [] sub = has_prefix [] sub
contains (c ∷ s) sub = has_prefix (c ∷ s) sub || contains s sub

abbrev pub contains_any : Bytes → List Bytes → Bool
contains_any s [] = false
contains_any s (sub ∷ subs) = contains s sub || contains_any s subs

abbrev pub transport_words : List Bytes
transport_words =
    codes "PROTOCOL_ERROR"
    ∷ codes "stream error"
    ∷ codes "unexpected EOF"
    ∷ codes "connection reset"
    ∷ codes "broken pipe"
    ∷ codes "INTERNAL_ERROR"
    ∷ codes "http2:"
    ∷ codes "TLS handshake timeout"
    ∷ codes "i/o timeout"
    ∷ []

unfoldable pub is_transient_transport_err : Option Fault → Bool
is_transient_transport_err none = false
is_transient_transport_err (some e) =
    if e.is_unexpected_eof || e.is_reset || e.is_broken_pipe || e.is_deadline
    then true
    else contains_any e.message transport_words

pub data LayerError : Type 0 where
  no_content reopen apply_failed extract_failed : Fault → LayerError
  expands_past : LayerError

abbrev pub permission_err : Option Fault → Bool
permission_err none = false
permission_err (some e) = e.is_permission

-- The manual pass: the layer is opened again and extracted.
abbrev pub second_pass : Option Fault → Option Fault → Option LayerError
second_pass (some e) extracted = some (reopen e)
second_pass none (some e) = some (extract_failed e)
second_pass none none = none

abbrev pub after_apply : Option Fault → Bool → Option Fault → Option Fault → Option LayerError
after_apply (some e) records_ownership reopened extracted =
    if e.is_permission then second_pass reopened extracted else some (apply_failed e)
after_apply none records_ownership reopened extracted =
    if records_ownership then second_pass reopened extracted else none

-- `refuseUnroutedTypes`, on the typeflag of an entry: hard links, FIFOs and device nodes.
unfoldable pub refuse_unrouted_types : ℕ → Bool
refuse_unrouted_types typeflag =
    not (typeflag == b'1' || typeflag == b'6' || typeflag == b'3' || typeflag == b'4')

-- `unpackLayer`: how opening the layer ends, archive.Apply, which is given the filter and leaves the
-- reader and an error, whether the host can record ownership, and how opening it again and the
-- extraction end.
unfoldable pub unpack_layer :
    Option Fault
    → ((ℕ → Bool) → CappedReader × Option Fault)
    → Bool
    → Option Fault
    → Option Fault
    → Option LayerError
unpack_layer (some e) apply records_ownership reopened extracted = some (no_content e)
unpack_layer none apply records_ownership reopened extracted =
    let (capped, applied) = apply refuse_unrouted_types in
    if capped.tripped
    then some expands_past
    else after_apply applied records_ownership reopened extracted

abbrev pub layer_attempts : ℕ
layer_attempts = 4

-- The loop from an attempt on, with the attempts left behind it: the error and the waits.
unfoldable pub retry_from : (ℕ → Option Fault) → ℕ → ℕ → Option Fault × List ℕ
retry_from unpack attempt zero = (unpack attempt, [])
retry_from unpack attempt (suc left) =
    let (e, waits) = retry_from unpack (attempt + 1) left in
    if not (is_transient_transport_err (unpack attempt))
    then (unpack attempt, [])
    else (e, attempt * second ∷ waits)

-- `unpackLayerWithRetry`, with the error of each attempt, `none` for success.
unfoldable pub unpack_layer_with_retry : (ℕ → Option Fault) → Option Fault × List ℕ
unpack_layer_with_retry unpack = retry_from unpack 1 (layer_attempts - 1)

pub data LayersError : Type 0 where
  no_rootfs : Fault → LayersError
  layer_failed : ℕ → Fault → LayersError

-- The loop of `UnpackLayers` from a layer on; each layer comes with its attempts.
unfoldable pub unpack_from : ℕ → List (ℕ → Option Fault) → Option LayersError
unpack_from i [] = none
unpack_from i (layer ∷ layers) = elim (unpack_layer_with_retry layer).0 [
  | none ↦ unpack_from (i + 1) layers
  | some e ↦ some (layer_failed i e)
]

-- `UnpackLayers`: whether the directory could be made, and the layers in their order.
unfoldable pub unpack_layers : Option Fault → List (ℕ → Option Fault) → Option LayersError
unpack_layers (some e) layers = some (no_rootfs e)
unpack_layers none layers = unpack_from 0 layers
