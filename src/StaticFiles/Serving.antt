-- ===== src/StaticFiles/Serving.antt =====
-- `StaticFiles` of src/app/static_files.cpp: the root that is open, and `serve`. The kernel is a
-- parameter; the paths that it is asked to open and the descriptors that it opens are kept.
pub mod Answers
pub mod Closing
use http.Base.{
  ℕ, zero, suc, ◌+◌, Bool, true, false, not, ◌&&◌, ◌||◌, List, [], ◌∷◌, ◌++◌, Option, none, some,
  Bytes, codes, ◌==◌, if◌then◌else◌, length, drop, equal,
}
use http.Ascii.{is_empty}
use http.Headers.{set}
use http.Response.{Response, text, plain_text}
use http.StaticFiles.{sanitize}
use http.UniqueFd.{UniqueFd, valid, reset, move_assign, destroy}

-- The errors that the code tells apart.
pub data Opened : Type 0 where
  opened_as : ℕ → Opened
  no_such_call other_error : Opened

-- What `S_ISDIR` and `S_ISREG` tell of a mode.
pub data Mode : Type 0 where
  directory regular other_kind : Mode

-- `struct stat`, as far as it is read.
pub record Stat : Type 0 where
  pub st_mode : Mode
  pub st_size : ℕ

-- The calls that are made, and the kernel's state. `openat2` refuses links and paths that are not
-- beneath the directory; it is none where the kernel's headers do not have it.
pub record Kernel {ℓ} (K : Type ℓ) : Type ℓ where
  pub open_dir : K → Bytes → Opened × K
  pub openat2 : Option (K → ℕ → Bytes → Opened × K)
  pub openat : K → ℕ → Bytes → Opened × K
  pub fstat : K → ℕ → Option Stat

-- The kernel, and what has been asked of it.
pub record Io {ℓ} (K : Type ℓ) : Type ℓ where
  pub state : K
  pub asked : List Bytes
  pub opened : List ℕ
  pub closed : List ℕ

-- `std::string_view::rfind` of a dot, and the bytes that follow it.
unfoldable pub after_dot : Bytes → Option Bytes
after_dot [] = none
after_dot (c ∷ s) = elim (after_dot s) [
  | some ext ↦ some ext
  | none ↦ if c == b'.' then some s else none
]

abbrev extension : Option Bytes → Bytes
extension none = []
extension (some ext) = ext

unfoldable pub mime_type : Bytes → Bytes
unfolding after_dot equal
mime_type path =
    let ext = extension (after_dot path) in
    if equal ext (codes "html") || equal ext (codes "htm")
    then codes "text/html; charset=utf-8"
    else if equal ext (codes "css")
    then codes "text/css; charset=utf-8"
    else if equal ext (codes "js") || equal ext (codes "mjs")
    then codes "text/javascript; charset=utf-8"
    else if equal ext (codes "json")
    then codes "application/json"
    else if equal ext (codes "txt") || equal ext (codes "log")
    then codes "text/plain; charset=utf-8"
    else if equal ext (codes "svg")
    then codes "image/svg+xml"
    else if equal ext (codes "png")
    then codes "image/png"
    else if equal ext (codes "jpg") || equal ext (codes "jpeg")
    then codes "image/jpeg"
    else if equal ext (codes "gif")
    then codes "image/gif"
    else if equal ext (codes "ico")
    then codes "image/x-icon"
    else if equal ext (codes "wasm")
    then codes "application/wasm"
    else if equal ext (codes "pdf")
    then codes "application/pdf"
    else codes "application/octet-stream"

-- The descriptor that a call has returned; every error is -1.
abbrev pub owner_of : Opened → UniqueFd
owner_of (opened_as fd) = some fd
owner_of no_such_call = none
owner_of other_error = none

abbrev pub note_owner : UniqueFd → List ℕ → List ℕ
note_owner none opened = opened
note_owner (some fd) opened = opened ++ (fd ∷ [])

abbrev is_dir : Mode → Bool
is_dir directory = true
is_dir _ = false

abbrev pub is_reg : Mode → Bool
is_reg regular = true
is_reg _ = false

abbrev pub is_dir_stat : Option Stat → Bool
is_dir_stat none = false
is_dir_stat (some st) = is_dir st.st_mode

abbrev pub not_found {κ} : {P : Type κ} → Response P
not_found = text 404 (codes "not found\n") plain_text

abbrev pub invalid_path {κ} : {P : Type κ} → Response P
invalid_path = text 400 (codes "invalid path\n") plain_text

module _ {ℓ} {K : Type ℓ} (kernel : Kernel K) where
  -- A call has returned.
  abbrev pub note_opened : Io K → Bytes → Opened × K → Io K
  note_opened io path (o, k) = record {
    state = k;
    asked = io.asked ++ (path ∷ []);
    opened = note_owner (owner_of o) io.opened;
    closed = io.closed;
  }

  -- The call that is the fallback.
  abbrev pub open_plainly : ℕ → Bytes → Io K → UniqueFd × Io K
  open_plainly dirfd path io =
      let answer = kernel.openat io.state dirfd path in
      (owner_of answer.0, note_opened io path answer)

  -- What is done with the answer of `openat2`.
  abbrev pub or_plainly : ℕ → Bytes → Opened → Io K → UniqueFd × Io K
  or_plainly dirfd path no_such_call io = open_plainly dirfd path io
  or_plainly dirfd path (opened_as fd) io = (some fd, io)
  or_plainly dirfd path other_error io = (none, io)

  unfoldable pub open_beneath : ℕ → Bytes → Io K → UniqueFd × Io K
  open_beneath dirfd path io = elim kernel.openat2 [
    | none ↦ open_plainly dirfd path io
    | some call ↦
        let answer = call io.state dirfd path in
        or_plainly dirfd path answer.0 (note_opened io path answer)
  ]

  -- `file.valid() && ::fstat(file.get(), &st) == 0`.
  abbrev pub stat_of : UniqueFd → Io K → Option Stat
  stat_of none io = none
  stat_of (some fd) io = kernel.fstat io.state fd

  -- `path += "/index.html"; file.reset(open_beneath(root_.get(), path));`, for a directory.
  unfoldable pub enter_index : ℕ → Bytes → UniqueFd → Io K → Bytes × UniqueFd × Io K
  unfolding open_beneath reset
  enter_index root path file io =
      if is_dir_stat (stat_of file io)
      then (let index = path ++ codes "/index.html" in
          let (found, io') = open_beneath root index io in
          let (file', closed) = reset file found io'.closed in
          (index, file', record io' { closed = closed }))
      else (path, file, io)

  module _ {κ} {P : Type κ} where
    -- `res = ...`: the file that the response had is closed.
    unfoldable pub replace : Response P → Response P → Io K → Response P × Io K
    unfolding move_assign
    replace res other io =
        let (file, left, closed) = move_assign res.file other.file io.closed in
        (record other { file = file }, record io { closed = closed })

    abbrev pub with_closed : Response P × Io K → UniqueFd → Response P × Io K
    with_closed (res, io) file = (res, record io { closed = destroy file io.closed })

    -- The end of `serve`, once the file and its status are known.
    unfoldable pub finish_serve :
        Bytes → UniqueFd → Option Stat → Response P → Io K → Response P × Io K
    unfolding mime_type set move_assign destroy replace text
    finish_serve path file none res io = with_closed (replace res (not_found {P = P}) io) file
    finish_serve path file (some st) res io =
        if not (is_reg st.st_mode)
        then with_closed (replace res (not_found {P = P}) io) file
        else let (assigned, left, closed) = move_assign res.file file io.closed in
          with_closed
            (
              record res {
                status = 200;
                headers = set res.headers (codes "Content-Type") (mime_type path);
                file = assigned;
                file_offset = 0;
                file_length = st.st_size;
              },
              record io { closed = closed },
            )
            left

    -- `serve` from the sanitized path on.
    unfoldable pub serve_path : ℕ → Bytes → Response P → Io K → Response P × Io K
    unfolding open_beneath enter_index finish_serve
    serve_path root sanitized res io =
        let path = if is_empty sanitized then codes "index.html" else sanitized in
        let (file, io') = open_beneath root path io in
        let (path'', file'', io'') = enter_index root path file io' in
        finish_serve path'' file'' (stat_of file'' io'') res io''

    unfoldable pub serve : UniqueFd → Bytes → Response P → Io K → Response P × Io K
    unfolding sanitize serve_path
    serve none rel_path res io =
        replace res (text 404 (codes "static root not available\n") plain_text) io
    serve (some root) rel_path res io = elim (sanitize rel_path) [
      | none ↦ replace res (invalid_path {P = P}) io
      | some sanitized ↦ serve_path root sanitized res io
    ]

  -- `StaticFiles::StaticFiles`. `asked` does not hold the path of the root, which may be absolute.
  unfoldable pub open_root : Bytes → Io K → UniqueFd × Io K
  open_root root io =
      let (o, k) = kernel.open_dir io.state root in
      (owner_of o, record io { state = k; opened = note_owner (owner_of o) io.opened })

unfoldable pub available : UniqueFd → Bool
unfolding valid
available root = valid root
