-- ===== src/Nvm/Store.antt =====
-- Reads after writes in sim/nvm.py, and its counters.
use sec_oc.Base.{◌≡◌, refl, none, [], String, str_eq, if◌then◌else◌}
use sec_oc.Base.Dict.{get_or-insert, get_or_missing, lookup}
use sec_oc.Nvm.{Nvm, read, write}
use sec_oc.Nvm.Values.{Value}

pub read-write :
    (k j : String) (v default : Value) (nvm : Nvm)
    → read j default (write k v nvm) ≡ (if str_eq k j then v else read j default nvm)
unfolding read write
read-write k j v default nvm = get_or-insert k j v default nvm.store

pub read_empty :
    (k : String) (default : Value) → read k default (record { store = []; file = none }) ≡ default
unfolding read lookup
read_empty k default = get_or_missing k default [] refl
