-- ===== src/Xtask/Os.antt =====
-- What crates/xtask/src/main.rs takes from the system: the environment, processes, files, paths and the zip
-- writer, over a world `W`; an archive is the list of its entries.
use tempest_addon_moonlight.Base.{ℕ, Bool, Option, List, Text, Result, ok, err, Fail, error}
use tempest_addon_moonlight.Nvhttp.Net.{M}

-- `SimpleFileOptions`: the compression, and the mode if one is set.
pub data Compression : Type 0 where
  deflated stored : Compression

pub record Entry : Type 0 where
  pub name : Text
  pub compression : Compression
  pub mode : Option ℕ
  pub contents : List ℕ

pub record Os (W : Type 0) : Type 0 where
  -- `env::var`, `env!("CARGO_PKG_VERSION")`, `workspace_root`, `env::consts`.
  pub env : Text → Option Text
  pub version : Text
  pub root : Text
  pub os : Text
  pub arch : Text
  -- `Path::join`
  pub join : Text → Text → Text
  -- A program with its arguments in a directory: whether it succeeds, if it starts.
  pub status : Text → List Text → Text → W → W × Result Text Bool
  pub is_file : Text → W → Bool
  pub read : Text → W → Result Text (List ℕ)
  pub create_dir_all : Text → W → W × Result Text (Unit {0})
  pub remove_file : Text → W → W
  -- The writer of an archive in memory, which has so many entries: an entry is started, its contents are
  -- written, and at last the archive's bytes.
  pub start_file : List Entry → Text → Compression → Option ℕ → Result Text (Unit {0})
  pub write_all : List Entry → List ℕ → Result Text (Unit {0})
  pub finish : List Entry → Result Text (List ℕ)
  -- An archive that is written to a file.
  pub create_zip : Text → List Entry → W → W × Result Text (Unit {0})
  pub file_len : Text → W → Result Text ℕ
  -- A file that is opened and what its reads give.
  pub open_file : Text → W → Result Text (List (Result Text (List ℕ)))
  pub println : Text → W → W
  pub eprintln : Text → W → W

-- `?` on what the system answers.
unfoldable pub sys : {A : Type 0} → Result Text A → Result Fail A
sys (ok a) = ok a
sys (err e) = err (error e)

unfoldable pub call : {W A : Type 0} → (W → W × Result Text A) → M W A
unfolding sys
call m w = let (w', r) = m w in (w', sys r)

unfoldable pub ask : {W A : Type 0} → (W → Result Text A) → M W A
unfolding sys
ask m w = (w, sys (m w))
