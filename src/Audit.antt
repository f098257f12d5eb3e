-- ===== src/Audit.antt =====
-- The class HashChainedLog of sim/dem.py: a journal whose entries are linked by hashes.
pub mod Chain
pub mod Collision
use sec_oc.Base.{
  ℕ, ◌-◌, String, Bool, true, false, ◌&&◌, List, [], ◌∷◌, ◌++◌, length, drop, ltb, str_eq,
  if◌then◌else◌,
}
use sec_oc.Base.Bytes.{from_end}

-- An entry without its hash; a detail is kept as the text that it is written as.
pub record Entry : Type 0 where
  pub event : String
  pub timestamp : ℕ
  pub detail : String

-- An entry with its hash.
pub record Link : Type 0 where
  pub entry : Entry
  pub hash : String

pub record HashChainedLog : Type 0 where
  pub max_entries : ℕ
  pub links : List Link
  pub prev_hash : String

abbrev pub genesis : String
genesis = "0000000000000000000000000000000000000000000000000000000000000000"

-- `HashChainedLog.__init__`
unfoldable pub new_log : ℕ → HashChainedLog
new_log max_entries = record { max_entries = max_entries; links = []; prev_hash = genesis }

-- `digest prev entry` is the hexadecimal SHA-256 digest of the JSON text of both.
module _ (digest : String → Entry → String) where
  -- `_chain_hash`, with the hash of the last entry.
  unfoldable pub chain_hash : Entry → HashChainedLog → String
  chain_hash entry l = digest l.prev_hash entry

  -- The oldest entry goes when there are too many.
  unfoldable pub evict : ℕ → List Link → List Link
  evict max_entries links = if ltb max_entries (length links) then drop 1 links else links

  -- `HashChainedLog.log`
  unfoldable pub log : Entry → HashChainedLog → HashChainedLog
  unfolding chain_hash evict
  log entry l =
      let hash = chain_hash entry l in
      record l {
        prev_hash = hash;
        links = evict l.max_entries (l.links ++ record { entry = entry; hash = hash } ∷ []);
      }

  -- The loop of `verify_integrity`, from the hash `prev`.
  unfoldable pub verify_from : String → List Link → Bool
  verify_from prev [] = true
  verify_from prev (e ∷ links) =
      let rest = verify_from e.hash links in
      if str_eq e.hash (digest prev e.entry) then rest else false

  -- `HashChainedLog.verify_integrity`
  unfoldable pub verify_integrity : HashChainedLog → Bool
  unfolding verify_from
  verify_integrity l = verify_from genesis l.links

-- `HashChainedLog.entries`
pub entries : ℕ → HashChainedLog → List Link
entries last_n l = drop (from_end (length l.links) last_n) l.links
