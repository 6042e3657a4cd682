-- ===== src/Tests/Files.antt =====
-- The static files, at a concrete kernel.
use http.Base.{ℕ, ◌+◌, [], ◌∷◌, some, ◌≡◌, refl, codes, All, ◌==◌, if◌then◌else◌}
use http.Response.{Response, empty_response}
use http.StaticFiles.Beneath.{Beneath}
use http.StaticFiles.Serving.{Kernel, Io, Stat, directory, regular, opened_as, no_such_call, serve}
use http.StaticFiles.Serving.Answers.{Answered, serve-Answered}
use http.StaticFiles.Serving.Closing.{serve-Closes}
use http.UniqueFd.{count, owns}

-- Every path can be opened, with a descriptor after the last; the descriptor 10 is a directory, and
-- the others are files of 5 bytes.
abbrev stat_any : ℕ → Stat
stat_any fd = record { st_mode = if fd == 10 then directory else regular; st_size = 5 }

abbrev small_kernel : Kernel ℕ
small_kernel = record {
  open_dir = λ k path. (opened_as k, k + 1);
  openat2 = some (λ k dirfd path. (no_such_call, k));
  openat = λ k dirfd path. (opened_as k, k + 1);
  fstat = λ k fd. some (stat_any fd);
}

abbrev small_io : Io ℕ
small_io = record { state = 10; asked = []; opened = []; closed = [] }

abbrev answered : Response ℕ × Io ℕ
answered = serve small_kernel (some 3) (codes "docs") empty_response small_io

index_sent : answered.0.file ≡ some 11
unfolding serve
index_sent = refl

index_closed : answered.1.closed ≡ 10 ∷ []
unfolding serve
index_closed = refl

serve-Answered_example :
    Answered small_kernel 3 (codes "docs") empty_response answered × All Beneath answered.1.asked
serve-Answered_example = serve-Answered small_kernel 3 (codes "docs") empty_response small_io tt

serve-Closes_example :
    count 10 answered.1.opened + 0 + 0 ≡ count 10 answered.1.closed + owns 10 answered.0.file + 0
serve-Closes_example =
    serve-Closes small_kernel 10 (some 3) (codes "docs") (empty_response {P = ℕ}) small_io
