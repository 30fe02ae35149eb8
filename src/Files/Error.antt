-- ===== src/Files/Error.antt =====
-- src/daemon/files/mod.rs: `FileError`, less the paths and names that it carries, and `Result`.

pub data FileError : Type 0 where
  not_found exists permission_denied invalid_path not_a_directory is_a_directory : FileError
  directory_not_empty destination_inside_source protected outside_scope : FileError
  unknown_user unknown_group io : FileError

pub data FileResult (A : Type 0) : Type 0 where
  done : A → FileResult A
  failed : FileError → FileResult A

infixl 5 ◌>>=◌
abbrev pub ◌>>=◌ : {A B : Type 0} → FileResult A → (A → FileResult B) → FileResult B
m >>= k = elim m [ failed e ↦ failed e | done a ↦ k a ]
