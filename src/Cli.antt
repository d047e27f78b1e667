-- ===== src/Cli.antt =====
-- airstore/cli/main.py: the commands, as what they print, the files they write and the exit status.
-- The manager behind httpx is a parameter.
pub mod Commands
use air_store.Prelude.{
  ℕ, ◌-◌, Text, text_eq, codes, Bytes, Option, none, some, List, [], ◌∷◌, ◌++◌, length, replicate,
  if◌then◌else◌,
}
use air_store.Core.Exec.{
  Error, Result, ok, err, Exec, ◌>>=◌, ◌>>◌, pure, raise, modify, key_error, type_error, transport,
  value_error,
}
use air_store.Core.Float.{Float}
use air_store.Core.Formatting.{decimal}
use air_store.Node.Handlers.{Reply, no_reply, response, is_success}

-- A value of a JSON answer that the commands print.
pub data Value : Type 0 where
  text : Text → Value
  number : ℕ → Value

abbrev pub Object : Type 0
Object = List (Text × Value)

-- The answer of one request, with `none` for a body that is no JSON of the expected shape.
abbrev pub Answer : Type 0 → Type 0
Answer A = Reply (Option A)

-- The requests of the commands; `W` is the manager and the network.
pub record Api (W : Type 0) : Type 0 where
  pub get_object : Text → W → Answer Object × W
  pub get_list : Text → W → Answer (List Object) × W
  -- the object under "file" in the details of a file
  pub get_details : Text → W → Answer Object × W
  pub post : Text → W → Answer Object × W
  -- the name and the content of the file, and the two form fields
  pub post_file : Text → Text → Bytes → Text → Text → W → Answer Object × W
  -- the header `content-disposition`, the pieces of the body, and whether reading them raised
  pub stream : Text → W → Reply (Text × List Bytes × Option Error) × W

-- Libraries: floats and their `:.2f`, `str(e)`, SHA-256.
pub record Library : Type 0 where
  pub float : Float
  pub abs : ℕ → ℕ
  pub two_decimals : ℕ → Text
  pub describe : Error → Text
  pub file_hash : Bytes → Text
  -- what `open(path, "wb")` raises, if it does, and `path.resolve()`
  pub open_failure : Text → Option Error
  pub resolve : Text → Text

-- What was printed so far, the local files by their resolved paths, and the manager.
pub record Console (W : Type 0) : Type 0 where
  pub printed : List Text
  pub files : List (Text × Bytes)
  pub net : W

-- `format_bytes`, from the unit on that the loop has reached
unfoldable pub format_units : Library → List Text → ℕ → Text
format_units l [] size = l.two_decimals size ++ codes " PB"
format_units l (unit ∷ units) size =
    let rest = format_units l units (l.float.div size (l.float.literal 10240 1)) in
    if l.float.lt (l.abs size) (l.float.literal 10240 1)
    then l.two_decimals size ++ (codes " " ++ unit)
    else rest

unfoldable pub format_bytes : Library → ℕ → Text
unfolding format_units
format_bytes l size =
    format_units l (codes "B" ∷ (codes "KB" ∷ (codes "MB" ∷ (codes "GB" ∷ (codes "TB" ∷ [])))))
      (l.float.of_int size)

-- `f"{value}"`, and `f"{value:<width}"`
abbrev pub show : Value → Text
show (text t) = t
show (number n) = decimal n

unfoldable pub left : ℕ → Text → Text
left width t = t ++ replicate (width - length t) b' '

-- `resource[name]`
unfoldable pub find_key : Text → Object → Option Value
find_key name [] = none
find_key name ((k, v) ∷ o) = if text_eq k name then some v else find_key name o

module _ {W : Type 0} where
  abbrev pub print : Text → Exec (Console W) (Unit {0})
  print line = modify (λ c. record c { printed = c.printed ++ (line ∷ []) })

  unfoldable pub field : Object → Text → Exec (Console W) Value
  unfolding find_key
  field o name c = elim (find_key name o) [ none ↦ (err key_error, c) | some v ↦ (ok v, c) ]

  -- `format_bytes(value)`, which raises for a text
  unfoldable pub size_of : Library → Value → Exec (Console W) Text
  size_of l (text t) = raise type_error
  size_of l (number n) = pure (format_bytes l n)

  -- `resp.raise_for_status()` and `resp.json()`
  unfoldable pub answered : {A : Type 0} → Answer A → Exec (Console W) A
  answered no_reply c = (err transport, c)
  answered (response code none) c = (err (if is_success code then value_error else transport), c)
  answered (response code (some a)) c = (if is_success code then ok a else err transport, c)

  abbrev pub ask : {A : Type 0} → (W → Answer A × W) → Exec (Console W) A
  ask request c = let (reply, net) = request c.net in answered reply (record c { net = net })

  -- `except Exception as e:`, with the exit status of the command after it
  unfoldable pub or_report : Library → Text → ℕ → Result (Unit {0}) × Console W → ℕ × Console W
  or_report l prefix code (ok u, c) = (0, c)
  or_report l prefix code (err e, c) =
      (code, record c { printed = c.printed ++ ((prefix ++ l.describe e) ∷ []) })

  -- Print a label before the value of a field.
  abbrev pub print_field : Object → Text → Text → Exec (Console W) (Unit {0})
  print_field o label name = do v ← field o name; print (label ++ show v)

  abbrev pub print_size : Library → Object → Text → Text → Exec (Console W) (Unit {0})
  print_size l o label name = do v ← field o name; t ← size_of l v; print (label ++ t)
