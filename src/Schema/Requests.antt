-- ===== src/Schema/Requests.antt =====
-- The requests of api_service/services/node_client.py, and the tables.
use secure_file_system.NodeClient
use secure_file_system.Base.{ℕ, Bool, true, false, if◌then◌else◌}
use secure_file_system.Base.Text.{Text}
use secure_file_system.Database.{delete_file_row}
use secure_file_system.Http.{Request}
use secure_file_system.Network.{Network, World, commit, stage}
use secure_file_system.NodeClient.{send}
use secure_file_system.Python.Hashlib.{Hashlib}
use secure_file_system.Schema.{AreConsistent}
use secure_file_system.Schema.Rows.{delete_file_row-IsConsistent}

module _ (net : Network) (h : Hashlib) (token : Text) where
  pub send-AreConsistent :
      (address : Text) (r : Request) (w : World net)
      → AreConsistent w
      → AreConsistent (NodeClient.send net h token address r w).1
  unfolding NodeClient.send
  send-AreConsistent address r w i = record {
    committed = i.committed;
    session = i.session;
    sent = (i.committed, i.sent);
  }

  pub removed_if-AreConsistent :
      (failing : Bool) (file_id : ℕ) (w : World net)
      → AreConsistent w
      → AreConsistent (if failing then w else commit (stage (delete_file_row file_id) w))
  removed_if-AreConsistent true file_id w i = i
  removed_if-AreConsistent false file_id w i =
      let gone = delete_file_row-IsConsistent file_id w.session i.session in
      record { committed = gone; session = gone; sent = i.sent }
