-- ===== src/StaticFiles/Serving/Answers.antt =====
-- What `serve` answers, and the paths that it asks the kernel for.
use http.Base.{
  ap, ℕ, ◌<◌, false, not, List, [], ◌∷◌, ◌++◌, ◌≡◌, refl, ◌∙◌, Option, none, some, Bytes, arith,
  Option-cases, ◌⊎◌, inl, inr, if_both, if_each, codes, if◌then◌else◌, All, All-append,
  append_assoc,
}
use http.Ascii.{is_empty}
use http.Headers.{set}
use http.Response.{Response, text}
use http.StaticFiles.{sanitize}
use http.StaticFiles.Beneath.{Beneath, Inner, at_root, under, Entry, Rooted, sanitize-Rooted}
use http.StaticFiles.Serving.{
  owner_of, open_plainly, Opened, opened_as, no_such_call, other_error, Kernel, Io, Stat, Mode,
  regular, directory, other_kind, is_dir_stat, is_reg, note_opened, or_plainly, open_beneath,
  enter_index, replace, not_found, invalid_path, finish_serve, serve_path, serve, stat_of,
  mime_type,
}
use http.UniqueFd.{UniqueFd, reset, release, move_assign}

letter : (c : ℕ) → 92 < c → Inner c
letter c h = (λ e. omega (arith, e, h), (λ e. omega (arith, e, h), λ e. omega (arith, e, h)))

dot : Inner b'.'
dot = (λ e. omega (arith, e), (λ e. omega (arith, e), λ e. omega (arith, e)))

index-Entry : Entry (codes "index.html")
index-Entry = (
  λ e. cc,
  λ e. cc,
  λ e. cc,
  (
    letter b'i' (omega arith),
    (
      letter b'n' (omega arith),
      (
        letter b'd' (omega arith),
        (
          letter b'e' (omega arith),
          (
            letter b'x' (omega arith),
            (
              dot,
              (
                letter b'h' (omega arith),
                (
                  letter b't' (omega arith),
                  (letter b'm' (omega arith), (letter b'l' (omega arith), tt)),
                ),
              ),
            ),
          ),
        ),
      ),
    ),
  ),
)

index-Beneath : (path : Bytes) → Beneath path → Beneath (path ++ codes "/index.html")
index-Beneath path b = rw append_assoc at (under b index-Entry)

-- `if (path.empty()) path = "index.html";`.
abbrev pub index_path : Bytes → Bytes
index_path out = if is_empty out then codes "index.html" else out

start_path : (out : Bytes) → Rooted out → Beneath (index_path out)
start_path [] r = at_root index-Entry
start_path (c ∷ out) (inl e) = absurd (cc)
start_path (c ∷ out) (inr b) = b

is_reg-regular : (m : Mode) → not (is_reg m) ≡ false → m ≡ regular
is_reg-regular regular e = refl
is_reg-regular directory e = absurd (cc)
is_reg-regular other_kind e = absurd (cc)

owner_of-some : (o : Opened) (fd : ℕ) → owner_of o ≡ some fd → o ≡ opened_as fd
owner_of-some (opened_as x) fd e = ap opened_as (cc)
owner_of-some no_such_call fd e = absurd (cc)
owner_of-some other_error fd e = absurd (cc)

-- The paths that were asked for are all beneath the root, and the last of them is this one.
abbrev pub AskedLast {ℓ} : {K : Type ℓ} → Bytes → Io K → Type 0
AskedLast path io =
    All Beneath io.asked × (earlier : List Bytes) × (io.asked ≡ earlier ++ (path ∷ []))

module _ {ℓ} {K : Type ℓ} (kernel : Kernel K) where
  note_opened-Asked :
      (io : Io K) (path : Bytes) (a : Opened × K)
      → Beneath path
      → All Beneath io.asked
      → AskedLast path (note_opened kernel io path a)
  note_opened-Asked io path (o, k) b all =
      (All-append Beneath io.asked (path ∷ []) all (b, tt), io.asked, refl)

  or_plainly-Asked :
      (dirfd : ℕ) (path : Bytes) (o : Opened) (io : Io K)
      → Beneath path
      → AskedLast path io
      → AskedLast path (or_plainly kernel dirfd path o io).1
  or_plainly-Asked dirfd path (opened_as fd) io b a = a
  or_plainly-Asked dirfd path other_error io b a = a
  or_plainly-Asked dirfd path no_such_call io b a =
      note_opened-Asked io path (kernel.openat io.state dirfd path) b a.0

  open_beneath-Asked :
      (dirfd : ℕ) (path : Bytes) (io : Io K)
      → Beneath path
      → All Beneath io.asked
      → AskedLast path (open_beneath kernel dirfd path io).1
  unfolding open_beneath
  open_beneath-Asked dirfd path io b all = elim (Option-cases kernel.openat2) [
    | inl e ↦
        rw (e, open_beneath) (note_opened-Asked io path (kernel.openat io.state dirfd path) b all)
    | inr (call, e) ↦
        rw (e, open_beneath)
          (or_plainly-Asked dirfd path _ _ b
            (note_opened-Asked io path (call io.state dirfd path) b all))
  ]

  -- The kernel has opened the descriptor at that path, beneath the directory.
  abbrev pub OpenedAt : ℕ → Bytes → ℕ → Type ℓ
  OpenedAt dirfd path fd =
      (k : K) × (((kernel.openat k dirfd path).0 ≡ opened_as fd)
        ⊎ ((call : K → ℕ → Bytes → Opened × K) × (kernel.openat2 ≡ some call)
            × ((call k dirfd path).0 ≡ opened_as fd)))

  abbrev Located : ℕ → Bytes → UniqueFd → Type ℓ
  Located dirfd path file = (fd : ℕ) → file ≡ some fd → OpenedAt dirfd path fd

  plainly-Located :
      (dirfd : ℕ) (path : Bytes) (io : Io K)
      → Located dirfd path (open_plainly kernel dirfd path io).0
  plainly-Located dirfd path io fd e =
      (io.state, inl (owner_of-some (kernel.openat io.state dirfd path).0 fd e))

  or_plainly-Located :
      (dirfd : ℕ) (path : Bytes) (call : K → ℕ → Bytes → Opened × K) (k : K) (o : Opened)
      (io : Io K)
      → kernel.openat2 ≡ some call
      → (call k dirfd path).0 ≡ o
      → Located dirfd path (or_plainly kernel dirfd path o io).0
  or_plainly-Located dirfd path call k (opened_as x) io e f fd h =
      let same : x ≡ fd = cc in (k, inr (call, e, f ∙ ap opened_as same))
  or_plainly-Located dirfd path call k other_error io e f fd h = absurd (cc)
  or_plainly-Located dirfd path call k no_such_call io e f fd h = plainly-Located dirfd path io fd h

  open_beneath-Located :
      (dirfd : ℕ) (path : Bytes) (io : Io K)
      → Located dirfd path (open_beneath kernel dirfd path io).0
  unfolding open_beneath
  open_beneath-Located dirfd path io fd h = elim (Option-cases kernel.openat2) [
    | inl e ↦
        let same : open_beneath kernel dirfd path io ≡ open_plainly kernel dirfd path io =
          rw (e, open_beneath) refl in
        plainly-Located dirfd path io fd (rw same at h)
    | inr (call, e) ↦
        let answer = call io.state dirfd path in
        let same : open_beneath kernel dirfd path io
            ≡ or_plainly kernel dirfd path answer.0 (note_opened kernel io path answer) =
          rw (e, open_beneath) refl in
        or_plainly-Located dirfd path call io.state answer.0 (note_opened kernel io path answer) e
          refl fd (rw same at h)
  ]

  -- The path that is served: the one asked for, or the index of that directory.
  abbrev pub Entered : ℕ → Bytes → Bytes × UniqueFd × Io K → Type ℓ
  Entered root path r =
      Beneath r.0
      × AskedLast r.0 r.2
      × ((r.0 ≡ path) ⊎ (r.0 ≡ path ++ codes "/index.html"))
      × Located root r.0 r.1

  enter_index-Entered :
      (root : ℕ) (path : Bytes) (file : UniqueFd) (io : Io K)
      → Beneath path
      → AskedLast path io
      → Located root path file
      → Entered root path (enter_index kernel root path file io)
  unfolding enter_index reset
  enter_index-Entered root path file io b a l =
      if_both (Entered root path) (is_dir_stat (stat_of kernel file io))
        (
          index-Beneath path b,
          open_beneath-Asked root (path ++ codes "/index.html") io (index-Beneath path b) a.0,
          inr refl,
          open_beneath-Located root (path ++ codes "/index.html") io,
        )
        (b, a, inl refl, l)

  module _ {κ} {P : Type κ} where
    -- The response that sends a regular file, as the kernel describes it when it is answered.
    abbrev pub Sends : ℕ → Bytes → Response P → Response P × Io K → Type (ℓ ⊔ κ)
    Sends root path res r =
        (fd : ℕ) × (st : Stat) × OpenedAt root path fd
        × (kernel.fstat r.1.state fd ≡ some st)
        × (st.st_mode ≡ regular)
        × (r.0 ≡ record res {
          status = 200;
          headers = set res.headers (codes "Content-Type") (mime_type path);
          file = some fd;
          file_offset = 0;
          file_length = st.st_size;
        })

    abbrev pub Finished : ℕ → Bytes → Response P → Response P × Io K → Type (ℓ ⊔ κ)
    Finished root path res r = (r.0 ≡ not_found) ⊎ Sends root path res r

    finish_serve-Finished :
        (root : ℕ) (path : Bytes) (file : UniqueFd) (st : Option Stat) (res : Response P)
        (io : Io K)
        → stat_of kernel file io ≡ st
        → Located root path file
        → Finished root path res (finish_serve kernel path file st res io)
          × ((finish_serve kernel path file st res io).1.asked ≡ io.asked)
    unfolding finish_serve replace move_assign reset release text
    finish_serve-Finished root path file none res io e l = (inl refl, refl)
    finish_serve-Finished root path none (some st) res io e l = absurd (cc)
    finish_serve-Finished root path (some fd) (some st) res io e l =
        if_each (λ r. Finished root path res r × (r.1.asked ≡ io.asked)) (not (is_reg st.st_mode))
          (λ h. (inl refl, refl))
          (λ h. (inr (fd, st, l fd refl, e, is_reg-regular st.st_mode h, refl), refl))

    -- What `serve` answers: the path is refused, there is no such file, or it sends the file at the
    -- sanitized path, or the index of the directory there.
    abbrev pub Answered : ℕ → Bytes → Response P → Response P × Io K → Type (ℓ ⊔ κ)
    Answered root rel_path res r =
        ((sanitize rel_path ≡ none) × (r.0 ≡ invalid_path))
        ⊎ ((out : Bytes) × (path : Bytes) × (sanitize rel_path ≡ some out)
            × Beneath path
            × ((path ≡ index_path out) ⊎ (path ≡ index_path out ++ codes "/index.html"))
            × (earlier : List Bytes) × (r.1.asked ≡ earlier ++ (path ∷ []))
            × Finished root path res r)

    -- From an open root, `serve` asks the kernel for no path but one beneath the root. It answers 400
    -- to a path that `sanitize` refuses. Else it answers 404, or it sends a file: the one at the
    -- sanitized path, with the index in place of an empty path, or the index of the directory there,
    -- which was the last path asked for and where the kernel has opened it, beneath the root. That file
    -- is regular, and the response has its size and the type of its extension.
    pub serve-Answered :
        (root : ℕ) (rel_path : Bytes) (res : Response P) (io : Io K)
        → All Beneath io.asked
        → Answered root rel_path res (serve kernel (some root) rel_path res io)
          × All Beneath (serve kernel (some root) rel_path res io).1.asked
    unfolding serve replace move_assign reset release text serve_path
    serve-Answered root rel_path res io all = elim (Option-cases (sanitize rel_path)) [
      | inl e ↦ rw (e, serve) (inl (refl, refl), all)
      | inr (out, e) ↦
          let b = start_path out (sanitize-Rooted rel_path out e) in
          let r = open_beneath kernel root (index_path out) io in
          let s = enter_index kernel root (index_path out) r.0 r.1 in
          let entered =
            enter_index-Entered root (index_path out) r.0 r.1 b
              (open_beneath-Asked root (index_path out) io b all)
              (open_beneath-Located root (index_path out) io) in
          let finished =
            finish_serve-Finished root s.0 s.1 (stat_of kernel s.1 s.2) res s.2 refl entered.3 in
          rw (e, serve)
            (
              inr (
                out,
                s.0,
                refl,
                entered.0,
                entered.2,
                entered.1.1,
                finished.1 ∙ entered.1.2,
                finished.0,
              ),
              rw finished.1 entered.1.0,
            )
    ]
