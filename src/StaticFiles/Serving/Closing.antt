-- ===== src/StaticFiles/Serving/Closing.antt =====
-- Every descriptor that `serve` opens is closed once, or the response has it.
use http.Base.{
  ℕ, ◌+◌, not, List, [], ◌∷◌, ◌++◌, ◌≡◌, refl, Option, none, some, Bytes, arith, if_both, if_each,
  codes, if◌then◌else◌,
}
use http.Ascii.{is_empty}
use http.Response.{Response, text}
use http.StaticFiles.{sanitize}
use http.StaticFiles.Serving.{
  Opened, opened_as, no_such_call, other_error, Kernel, Io, Stat, is_dir_stat, is_reg, owner_of,
  note_owner, note_opened, open_plainly, or_plainly, open_beneath, enter_index, replace, not_found,
  invalid_path, with_closed, finish_serve, serve_path, serve, stat_of,
}
use http.UniqueFd.{
  UniqueFd, close_owned, reset, release, move_assign, destroy, count, owns, count-append,
  close_owned-count,
}

-- So often a descriptor is held, but for those that were held before.
abbrev pub Held {ℓ} : {K : Type ℓ} → (fd before after : ℕ) → Io K → ℕ → Type 0
Held fd before after io held = count fd io.opened + before ≡ count fd io.closed + held + after

note_owner-count :
    (fd : ℕ) (o : UniqueFd) (opened : List ℕ)
    → count fd (note_owner o opened) ≡ count fd opened + owns fd o
note_owner-count fd none opened = omega arith
note_owner-count fd (some x) opened = omega (arith, count-append fd opened (x ∷ []))

module _ {ℓ} {K : Type ℓ} (kernel : Kernel K) (fd before after : ℕ) where
  note_opened-Held :
      (io : Io K) (path : Bytes) (a : Opened × K) (m : ℕ)
      → Held fd before after io m
      → Held fd before after (note_opened kernel io path a) (m + owns fd (owner_of a.0))
  note_opened-Held io path (o, k) m h = omega (arith, h, note_owner-count fd (owner_of o) io.opened)

  or_plainly-Held :
      (dirfd : ℕ) (path : Bytes) (o : Opened) (io : Io K) (m : ℕ)
      → Held fd before after io (m + owns fd (owner_of o))
      → Held fd before after
          (or_plainly kernel dirfd path o io).1
          (m + owns fd (or_plainly kernel dirfd path o io).0)
  or_plainly-Held dirfd path (opened_as x) io m h = h
  or_plainly-Held dirfd path other_error io m h = h
  or_plainly-Held dirfd path no_such_call io m h =
      note_opened-Held io path (kernel.openat io.state dirfd path) m (omega (arith, h))

  open_beneath-Held :
      (dirfd : ℕ) (path : Bytes) (io : Io K) (m : ℕ)
      → Held fd before after io m
      → Held fd before after
          (open_beneath kernel dirfd path io).1
          (m + owns fd (open_beneath kernel dirfd path io).0)
  unfolding open_beneath
  open_beneath-Held dirfd path io m h =
      elim kernel.openat2
        as (λ o.
          let r = elim o as (λ _. UniqueFd × Io K) [
            | none ↦ open_plainly kernel dirfd path io
            | some call ↦
                let answer = call io.state dirfd path in
                or_plainly kernel dirfd path answer.0 (note_opened kernel io path answer)
          ] in
          Held fd before after r.1 (m + owns fd r.0)) [
            | none ↦ note_opened-Held io path (kernel.openat io.state dirfd path) m h
            | some call ↦
                or_plainly-Held dirfd path _ _ m
                  (note_opened-Held io path (call io.state dirfd path) m h)
          ]

  enter_index-Held :
      (root : ℕ) (path : Bytes) (file : UniqueFd) (io : Io K) (m : ℕ)
      → Held fd before after io (m + owns fd file)
      → Held fd before after
          (enter_index kernel root path file io).2
          (m + owns fd (enter_index kernel root path file io).1)
  unfolding enter_index reset
  enter_index-Held root path file io m h =
      if_both (λ (r : Bytes × UniqueFd × Io K). Held fd before after r.2 (m + owns fd r.1))
        (is_dir_stat (stat_of kernel file io))
        (omega (
          arith,
          open_beneath-Held root (path ++ codes "/index.html") io (m + owns fd file) h,
          close_owned-count fd file
              (open_beneath kernel root (path ++ codes "/index.html") io).1.closed,
        ))
        h

  module _ {κ} {P : Type κ} where
    -- What an answer leaves held is the file of the response.
    abbrev Settles : Response P × Io K → Type 0
    Settles r = Held fd before after r.1 (owns fd r.0.file)

    replace-Held :
        (res other : Response P) (io : Io K) (m : ℕ)
        → other.file ≡ none
        → Held fd before after io (m + owns fd res.file)
        → Held fd before after (replace kernel res other io).1 m
          × ((replace kernel res other io).0.file ≡ none)
    unfolding replace move_assign reset release
    replace-Held res other io m e h = (omega (arith, h, close_owned-count fd res.file io.closed), e)

    -- The file is closed with what is left unsettled.
    refused-Held :
        (res other : Response P) (io : Io K) (file : UniqueFd)
        → other.file ≡ none
        → Held fd before after io (owns fd res.file + owns fd file)
        → Settles (with_closed kernel (replace kernel res other io) file)
    unfolding destroy reset replace move_assign release
    refused-Held res other io file e h = rw e (
        omega (
          arith,
          h,
          close_owned-count fd res.file io.closed,
          close_owned-count fd file (close_owned res.file io.closed),
        ))

    finish_serve-Held :
        (path : Bytes) (file : UniqueFd) (st : Option Stat) (res : Response P) (io : Io K)
        → Held fd before after io (owns fd res.file + owns fd file)
        → Settles (finish_serve kernel path file st res io)
    unfolding finish_serve text destroy reset move_assign release
    finish_serve-Held path file none res io h = refused-Held res not_found io file refl h
    finish_serve-Held path file (some st) res io h =
        if_each Settles (not (is_reg st.st_mode)) (λ e. refused-Held res not_found io file refl h)
          (λ e. omega (
            arith,
            h,
            close_owned-count fd res.file io.closed,
            close_owned-count fd none (close_owned res.file io.closed),
          ))

    serve_path-Held :
        (root : ℕ) (sanitized : Bytes) (res : Response P) (io : Io K)
        → Held fd before after io (owns fd res.file)
        → Settles (serve_path kernel root sanitized res io)
    unfolding serve_path
    serve_path-Held root sanitized res io h =
        let path = if is_empty sanitized then codes "index.html" else sanitized in
        let r = open_beneath kernel root path io in
        let e = enter_index kernel root path r.0 r.1 in
        finish_serve-Held e.0 e.1 (stat_of kernel e.1 e.2) res e.2 (
          enter_index-Held root path r.0 r.1 (owns fd res.file)
            (open_beneath-Held root path io (owns fd res.file) h))

    serve-Held :
        (root : UniqueFd) (rel_path : Bytes) (res : Response P) (io : Io K)
        → Held fd before after io (owns fd res.file)
        → Settles (serve kernel root rel_path res io)
    unfolding serve text replace move_assign reset release
    serve-Held none rel_path res io h = omega (arith, h, close_owned-count fd res.file io.closed)
    serve-Held (some root) rel_path res io h =
        elim (sanitize rel_path)
          as (λ o. Settles (elim o as (λ _. Response P × Io K) [
            | none ↦ replace kernel res invalid_path io
            | some sanitized ↦ serve_path kernel root sanitized res io
          ])) [
            | none ↦ omega (arith, h, close_owned-count fd res.file io.closed)
            | some sanitized ↦ serve_path-Held root sanitized res io h
          ]

-- Of each descriptor, `serve` closes as many as it opens and the response held before, but for one that
-- the response holds after it: no descriptor leaks and none is closed twice, on any path through it.
pub serve-Closes {ℓ κ} :
    {K : Type ℓ} {P : Type κ} (kernel : Kernel K) (fd : ℕ) (root : UniqueFd) (rel_path : Bytes)
    (res : Response P) (io : Io K)
    → count fd (serve kernel root rel_path res io).1.opened + count fd io.closed + owns fd res.file
      ≡ count fd (serve kernel root rel_path res io).1.closed
        + owns fd (serve kernel root rel_path res io).0.file
        + count fd io.opened
serve-Closes kernel fd root rel_path res io = omega (
  arith,
  serve-Held kernel fd (count fd io.closed + owns fd res.file) (count fd io.opened) root rel_path
      res io (omega arith),
)
