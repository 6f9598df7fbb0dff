-- ===== src/Fs/Examples.antt =====
-- A system that refuses nothing, one on which no file can be opened for writing, one whose disk is full,
-- and an empty disk.
use embedded_linux_ota.Prelude.{true, false, none, [], refl}
use embedded_linux_ota.Text.{is_empty}
use embedded_linux_ota.Fs.{Files, Env, IsHonest, IsHealthy}

abbrev pub good_env : Env
good_env = record {
  can_open = λ path. true;
  stored = λ path content. content;
  write_good = λ path content. true;
  buffer_good = λ path content. true;
  can_rename = λ old new. true;
}

pub good_env-IsHonest : IsHonest good_env
good_env-IsHonest path content h = refl

pub good_env-IsHealthy : IsHealthy good_env
good_env-IsHealthy = record {
  honest = good_env-IsHonest;
  opens = λ path. refl;
  writes = λ path content. refl;
  buffers = λ path content. refl;
  renames = λ old new. refl;
}

abbrev pub closed_env : Env
closed_env = record good_env { can_open = λ path. false }

pub closed_env-IsHonest : IsHonest closed_env
closed_env-IsHonest path content h = refl

-- Nothing is stored, which a stream says after a flush only.
abbrev pub full_env : Env
full_env = record good_env {
  stored = λ path content. [];
  write_good = λ path content. is_empty content;
}

abbrev pub empty_disk : Files
empty_disk path = none
