-- ===== src/Logs.antt =====
-- The log of SimpleServer/ServerMain.cpp: `TeeBuf`, which writes to the console and to a file, and the
-- change of the log files when the server starts. A byte is a number, and a path is a number too.
use mathlib.Core.List.{append_assoc, append-nil}
use simple_server.Prelude.{
  ℕ, ◌%◌, ◌≡◌, refl, sym, ap, ◌∙◌, ◌≢◌, inl, inr, Bool, true, false, not, ◌||◌, Option, none, some,
  List, [], ◌∷◌, ◌++◌, arith, ◌==◌, if◌then◌else◌, Option-cases, ◌>>=◌, length,
}

-- A `std::streambuf` as `TeeBuf` uses it. A refused byte is EOF, and `sputn` says how many it took.
pub record Sink (B : Type 0) : Type 0 where
  pub sputc : ℕ → B → Bool × B
  pub sputn : List ℕ → B → ℕ × B
  pub pubsync : B → B

pub record TeeBuf (B : Type 0) : Type 0 where
  pub console : B
  pub file : B

module _ {B : Type 0} (sink : Sink B) where
  -- EOF is `none`, as argument and as result.
  unfoldable pub overflow : Option ℕ → TeeBuf B → Option ℕ × TeeBuf B
  overflow none t = (some 0, t)
  overflow (some c) t =
      let (on_console, b1) = sink.sputc (c % 256) t.console in
      let t1 = record t { console = b1 } in
      if not on_console
      then (none, t1)
      else (let (in_file, b2) = sink.sputc (c % 256) t1.file in
          (if in_file then some c else none, record t1 { file = b2 }))

  unfoldable pub xsputn : List ℕ → TeeBuf B → ℕ × TeeBuf B
  xsputn s t =
      (length s, record { console = (sink.sputn s t.console).1; file = (sink.sputn s t.file).1 })

  unfoldable pub sync : TeeBuf B → ℕ × TeeBuf B
  sync t = (0, record { console = sink.pubsync t.console; file = sink.pubsync t.file })

  -- What is printed: single bytes and strings.
  pub data Print : Type 0 where
    byte : ℕ → Print
    string : List ℕ → Print

  unfoldable pub print : Print → TeeBuf B → TeeBuf B
  print (byte c) t = (overflow (some c) t).1
  print (string s) t = (xsputn s t).1

  unfoldable pub print_all : List Print → TeeBuf B → TeeBuf B
  print_all [] t = t
  print_all (p ∷ ps) t = print_all ps (print p t)

  abbrev pub bytes_of : List Print → List ℕ
  bytes_of [] = []
  bytes_of (byte c ∷ ps) = c % 256 ∷ bytes_of ps
  bytes_of (string s ∷ ps) = s ++ bytes_of ps

  -- What the console and the file are trusted with: to take what they are given.
  pub record IsTaking (content : B → List ℕ) : Type 0 where
    pub takes_byte :
        (c : ℕ) (b : B)
        → ((sink.sputc c b).0 ≡ true) × (content (sink.sputc c b).1 ≡ content b ++ (c ∷ []))
    pub takes_string : (s : List ℕ) (b : B) → content (sink.sputn s b).1 ≡ content b ++ s

  module _ (content : B → List ℕ) (taking : IsTaking content) where
    -- Both have taken `s`, and nothing else.
    abbrev Adds : List ℕ → TeeBuf B → TeeBuf B → Type 0
    Adds s t u =
        (content u.console ≡ content t.console ++ s) × (content u.file ≡ content t.file ++ s)

    byte-Adds : (c : ℕ) (t : TeeBuf B) → Adds (c % 256 ∷ []) t (overflow (some c) t).1
    unfolding overflow
    byte-Adds c t =
        let a = taking.takes_byte (c % 256) t.console in
        let b = taking.takes_byte (c % 256) t.file in ground arith

    string-Adds : (s : List ℕ) (t : TeeBuf B) → Adds s t (xsputn s t).1
    unfolding xsputn
    string-Adds s t = (taking.takes_string s t.console, taking.takes_string s t.file)

    then-Adds : (x y : List ℕ) (t u v : TeeBuf B) → Adds x t u → Adds y u v → Adds (x ++ y) t v
    then-Adds x y t u v (a, b) (c, d) = (
      c ∙ (ap (λ k. k ++ y) a ∙ append_assoc (content t.console) x y),
      d ∙ (ap (λ k. k ++ y) b ∙ append_assoc (content t.file) x y),
    )

    -- If the console and the file take what they are given, all that is printed reaches both, in order.
    pub print_all-Adds : (ps : List Print) (t : TeeBuf B) → Adds (bytes_of ps) t (print_all ps t)
    unfolding print_all print
    print_all-Adds [] t = (sym (append-nil (content t.console)), sym (append-nil (content t.file)))
    print_all-Adds (byte c ∷ ps) t =
        let u = (overflow (some c) t).1 in
        then-Adds (c % 256 ∷ []) (bytes_of ps) t u (print_all ps u) (byte-Adds c t)
          (print_all-Adds ps u)
    print_all-Adds (string s ∷ ps) t =
        let u = (xsputn s t).1 in
        then-Adds s (bytes_of ps) t u (print_all ps u) (string-Adds s t) (print_all-Adds ps u)

-- ── The files ──

-- The bytes under a path, if there is a file, and whether the system refuses to touch it.
pub record Files : Type 0 where
  pub at_path : ℕ → Option (List ℕ)
  pub refused : ℕ → Bool

abbrev is_file : Option (List ℕ) → Bool
is_file none = false
is_file (some bytes) = true

unfoldable pub exists : ℕ → Files → Bool
exists path fs = is_file (fs.at_path path)

unfoldable pub put : ℕ → Option (List ℕ) → Files → Files
put path bytes fs = record fs { at_path = λ k. if k == path then bytes else fs.at_path k }

-- `std::filesystem::remove` and `rename`; `none` is their exception.
unfoldable pub remove : ℕ → Files → Option Files
unfolding put
remove path fs = if fs.refused path then none else some (put path none fs)

unfoldable pub rename : ℕ → ℕ → Files → Option Files
unfolding put
rename from to fs =
    if fs.refused from || fs.refused to
    then none
    else some (put to (fs.at_path from) (put from none fs))

-- `main` up to `std::ofstream logFile(cur)`, which empties the file.
unfoldable pub rotate_logs : ℕ → ℕ → Files → Option Files
unfolding exists remove rename put
rotate_logs cur prev fs = do
  fs1 ← if exists prev fs then remove prev fs else some fs
  fs2 ← if exists cur fs1 then rename cur prev fs1 else some fs1
  some (if fs2.refused cur then fs2 else put cur (some []) fs2)

-- Where a file may be touched.
abbrev IsFree : Files → Type 0
IsFree fs = (k : ℕ) → fs.refused k ≡ false

-- The change of one path.
abbrev Changes : ℕ → Option (List ℕ) → Files → Files → Type 0
Changes path bytes fs v =
    (v.at_path path ≡ bytes) × ((k : ℕ) → k ≢ path → v.at_path k ≡ fs.at_path k) × IsFree v

put-Changes :
    (path : ℕ) (bytes : Option (List ℕ)) (fs : Files)
    → IsFree fs
    → Changes path bytes fs (put path bytes fs)
unfolding put
put-Changes path bytes fs free = (ground arith, (λ k n. ground arith), free)

prev_removed :
    (prev : ℕ) (fs : Files)
    → IsFree fs
    → (v : Files) × ((if exists prev fs then remove prev fs else some fs) ≡ some v)
      × Changes prev none fs v
unfolding exists remove
prev_removed prev fs free = elim (Option-cases (fs.at_path prev)) [
  | inl absent ↦ (fs, rw absent refl, (absent, (λ k n. refl), free))
  | inr (bytes, there) ↦
      (put prev none fs, rw (there, free prev) refl, put-Changes prev none fs free)
]

cur_renamed :
    (cur prev : ℕ) (fs : Files)
    → cur ≢ prev
    → IsFree fs
    → fs.at_path prev ≡ none
    → (v : Files) × ((if exists cur fs then rename cur prev fs else some fs) ≡ some v)
      × (v.at_path prev ≡ fs.at_path cur)
      × ((k : ℕ) → k ≢ cur → k ≢ prev → v.at_path k ≡ fs.at_path k)
      × IsFree v
unfolding exists rename put
cur_renamed cur prev fs n free gone = elim (Option-cases (fs.at_path cur)) [
  | inl absent ↦ (fs, rw absent refl, gone ∙ sym absent, (λ k a b. refl), free)
  | inr (bytes, there) ↦ (
    put prev (fs.at_path cur) (put cur none fs),
    rw (there, free cur, free prev) refl,
    ground arith,
    (λ k a b. ground arith),
    free,
  )
]

-- Where the system refuses nothing, the log of the run before becomes the previous log, the new log is
-- empty, and no other file changes. Without a log of the run before there is no previous log either,
-- even if there was one.
pub rotate_logs_lem :
    (cur prev : ℕ) (fs : Files)
    → cur ≢ prev
    → IsFree fs
    → (v : Files) × (rotate_logs cur prev fs ≡ some v)
      × (v.at_path prev ≡ fs.at_path cur)
      × (v.at_path cur ≡ some [])
      × ((k : ℕ) → k ≢ cur → k ≢ prev → v.at_path k ≡ fs.at_path k)
unfolding rotate_logs put
rotate_logs_lem cur prev fs n free =
    let (v1, e1, (gone, same1, free1)) = prev_removed prev fs free in
    let (v2, e2, moved, same2, free2) = cur_renamed cur prev v1 n free1 gone in
    (
      put cur (some []) v2,
      rw (e1, e2, free2 cur) refl,
      ground (arith, same1 cur n),
      ground arith,
      λ k a b. ground (arith, same1 k b, same2 k a b),
    )
