-- ===== src/Lib.antt =====
-- Verification of the Python code of the mini-Internet: the generator of its configurations, the
-- program that pings between its ASes, the monitor of announcements, the parsers of the files
-- between these and the web server, the BGP policy analyzer, the connectivity and validity matrix,
-- and the two web servers for students and for the admin.
--
-- All paths below start in platform/docker_images/webserver/server/, if they do not start with
-- platform/.
--
-- Generator models platform/utils/build_configs/generate_connections.py. Topology has the
-- topologies and Python's indices, Routers the tables of routers, Blocks the three loops as the
-- list of their calls of print_connection, Generator itself print_connection, and Config the file
-- AS_config.txt. A file is the list of its lines, and a line the list of its fields; the text is
-- made of them by `written` of Files/Clean/Written. Rows, RoundTrip, Subnets and Loads have the
-- theorems.
--
-- Ping models platform/docker_images/matrix/ping.py: the destinations, the pass over all ASes that
-- fills co_dic, and the file connectivity.txt. The output of each ping and the shuffled orders are
-- parameters; co_dic is a function, since all of its keys are those of as_list.
--
-- Monitor models platform/docker_images/exabgp_monitor/parser/parser.py over JSON values (Values),
-- with the text that str() makes of a value as a parameter. A loop in a try block gives what it
-- appended before its exception.
--
-- Files models utils/parsers.py. Clean has _read_clean and the rows that csv makes of its lines,
-- for files without quotation marks, in which numbers have no sign; Sort the stable sort by two
-- numbers; Connections, Public, Tables and Json the parsers. A directory is the list of its
-- entries, a JSON file its contents at each attempt to read it, and the parser json.load a
-- parameter.
--
-- Policy models routing_project_server/bgp_policy_analyzer.py and analyzer_helpers.py. Config has
-- the tables as_config and links with their constraints (load_config) and the views on them;
-- Relations the queries on neighbours and relationships, and the recursive sets, which run the
-- loop of Closure; AsPath has normalize_as_path; LookingGlass the table of routes
-- (load_looking_glass, parse_lg), where a router's rows are deleted and inserted in a transaction,
-- on a record of the committed rows and those that the connection sees; Log the table of messages
-- and its queries. Analysis is compute_results: Analysis/Route checks the routes of an AS one by
-- one, Analysis/Announcements asks if its neighbours announce what they should, Analysis/BestPath
-- looks for better routes than the chosen ones, and Analysis/Ixp for routes that came over an IXP
-- and should not have. Reports composes them, with the database file that the background workers
-- keep, as in prepare_bgp_analysis of routing_project_server/app.py. A query is a function on
-- lists, in the order of the rows; a text of SQL or of a route is a list of code points. An
-- exception is an error result.
--
-- Matrix models routing_project_server/matrix.py. Connectivity has check_connectivity, Node the
-- class AS with its recursive sets, Checker path_checker, and Validity get_path_from_router,
-- get_path_to_as and check_validity. An object of the class AS is known by its number, since there
-- is one object for each number. Prepare composes the parsers and both checks with the cache of
-- the background worker, as prepare_matrix of routing_project_server/app.py does.
--
-- Portal models the handlers that change the database of database/database_funct.py: Calendar has
-- detect_rend_collision of utils/utils.py and the loop of config_rendezvous in admin_server/app.py
-- that adds a range; Slots its forms that add one rendezvous or a range and delete one; Periods
-- its forms for periods and for the team of a rendezvous; Booking the requests of a team to
-- rendezvous in routing_project_server/app.py; Teams config_teams of the admin server with
-- check_for_dupes, update_students and change_pass; Students config_students, with grades of any
-- type; Settings config_general; Logins create_as_login of database/build_db.py; Account has
-- as_login and change_pass_index; Dashboard the thinning of measurements; Connections the choice
-- of connections that a page shows. A row is a record, and a handler is a function from the rows
-- before to the rows that are committed. A date is a number of minutes. The pipe to docker is
-- missing, cannot be written, or is a list of commands. What change_pass_index sets is not
-- committed, so that Account keeps the committed rows and those that the session sees. The keys
-- that the database gives to new rows are a parameter, and so is the current time.
--
-- Fuel: the sets of customers and providers get one round more than there are ends of links, which
-- is enough, since each round but the last adds an AS; a group one round more. The queues of Node
-- get any fuel, since they do not end on a cycle; on a hierarchy the number of walks is enough,
-- and without it prepare_matrix is a call that does not end. The range of Calendar gets as many
-- rounds as the end of the range has minutes, since each round moves the start by at least one.
--
-- Not modelled: the start of the servers and their workers, the HTML page of ping.py, and the
-- autograder. Slack messages and images are calls of other programs, ExaBGP is a copy of another
-- project, and the Go and shell code is in other languages. The percentages of the matrix page are
-- floating-point numbers.
--
-- Prelude has the helpers that all parts share, and Dict the dictionaries. The modules called
-- Tests hold examples.
pub mod Prelude
pub mod Dict
pub mod Policy
pub mod Matrix
pub mod Portal
pub mod Files
pub mod Generator
pub mod Ping
pub mod Monitor
