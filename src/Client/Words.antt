-- ===== src/Client/Words.antt =====
-- The words that the commands of client/main.cpp begin with, as bytes.
use peer_to_peer_distributed.Base.{[], ◌∷◌}
use peer_to_peer_distributed.Text.{Str}

-- "create_user"
abbrev pub create_user_word : Str
create_user_word = 99 ∷ 114 ∷ 101 ∷ 97 ∷ 116 ∷ 101 ∷ 95 ∷ 117 ∷ 115 ∷ 101 ∷ 114 ∷ []

-- "login"
abbrev pub login_word : Str
login_word = 108 ∷ 111 ∷ 103 ∷ 105 ∷ 110 ∷ []

-- "list"
abbrev pub list_word : Str
list_word = 108 ∷ 105 ∷ 115 ∷ 116 ∷ []

-- "list_groups"
abbrev pub list_groups_word : Str
list_groups_word = 108 ∷ 105 ∷ 115 ∷ 116 ∷ 95 ∷ 103 ∷ 114 ∷ 111 ∷ 117 ∷ 112 ∷ 115 ∷ []

-- "create_group"
abbrev pub create_group_word : Str
create_group_word = 99 ∷ 114 ∷ 101 ∷ 97 ∷ 116 ∷ 101 ∷ 95 ∷ 103 ∷ 114 ∷ 111 ∷ 117 ∷ 112 ∷ []

-- "join_group"
abbrev pub join_group_word : Str
join_group_word = 106 ∷ 111 ∷ 105 ∷ 110 ∷ 95 ∷ 103 ∷ 114 ∷ 111 ∷ 117 ∷ 112 ∷ []

-- "leave_group"
abbrev pub leave_group_word : Str
leave_group_word = 108 ∷ 101 ∷ 97 ∷ 118 ∷ 101 ∷ 95 ∷ 103 ∷ 114 ∷ 111 ∷ 117 ∷ 112 ∷ []

-- "list_requests"
abbrev pub list_requests_word : Str
list_requests_word = 108 ∷ 105 ∷ 115 ∷ 116 ∷ 95 ∷ 114 ∷ 101 ∷ 113 ∷ 117 ∷ 101 ∷ 115 ∷ 116 ∷ 115 ∷ []

-- "accept_request"
abbrev pub accept_request_word : Str
accept_request_word =
    97 ∷ 99 ∷ 99 ∷ 101 ∷ 112 ∷ 116 ∷ 95 ∷ 114 ∷ 101 ∷ 113 ∷ 117 ∷ 101 ∷ 115 ∷ 116 ∷ []

-- "upload_file"
abbrev pub upload_file_word : Str
upload_file_word = 117 ∷ 112 ∷ 108 ∷ 111 ∷ 97 ∷ 100 ∷ 95 ∷ 102 ∷ 105 ∷ 108 ∷ 101 ∷ []

-- "list_files"
abbrev pub list_files_word : Str
list_files_word = 108 ∷ 105 ∷ 115 ∷ 116 ∷ 95 ∷ 102 ∷ 105 ∷ 108 ∷ 101 ∷ 115 ∷ []

-- "download_file"
abbrev pub download_file_word : Str
download_file_word = 100 ∷ 111 ∷ 119 ∷ 110 ∷ 108 ∷ 111 ∷ 97 ∷ 100 ∷ 95 ∷ 102 ∷ 105 ∷ 108 ∷ 101 ∷ []

-- "show_downloads"
abbrev pub show_downloads_word : Str
show_downloads_word =
    115 ∷ 104 ∷ 111 ∷ 119 ∷ 95 ∷ 100 ∷ 111 ∷ 119 ∷ 110 ∷ 108 ∷ 111 ∷ 97 ∷ 100 ∷ 115 ∷ []

-- "stop_share"
abbrev pub stop_share_word : Str
stop_share_word = 115 ∷ 116 ∷ 111 ∷ 112 ∷ 95 ∷ 115 ∷ 104 ∷ 97 ∷ 114 ∷ 101 ∷ []

-- "logout"
abbrev pub logout_word : Str
logout_word = 108 ∷ 111 ∷ 103 ∷ 111 ∷ 117 ∷ 116 ∷ []

-- "exit"
abbrev pub exit_word : Str
exit_word = 101 ∷ 120 ∷ 105 ∷ 116 ∷ []

-- "quit"
abbrev pub quit_word : Str
quit_word = 113 ∷ 117 ∷ 105 ∷ 116 ∷ []
