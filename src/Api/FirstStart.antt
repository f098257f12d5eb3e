-- ===== src/Api/FirstStart.antt =====
-- The application of api/state.py from its start on: a PDU through the two endpoints of
-- api/routers/secoc.py.
use sec_oc.Base.Bytes.{Bytes}
use sec_oc.Base.Dict.{Dict}
use sec_oc.Nvm.{Nvm}
